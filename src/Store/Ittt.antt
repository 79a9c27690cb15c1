-- ===== src/Store/Ittt.antt =====
-- store/ittt.go: `ITTTStore`, if this then that. The stores `this` and `that` share no state.
pub mod Laws
use reflector_go.Store.{Blob, BlobStore, Result, Str, err, BlobTrace, Bool, ok, false, true}
use reflector_go.Prelude.{bytes, if◌then◌else◌}
use reflector_go.Errors.{not_implemented}
use reflector_go.Shared.{stack}

abbrev name_ittt : Str
name_ittt = bytes "ittt"

module _ (this that : BlobStore) where
  pub record ItttStore : Type 0 where
    pub this_state : this.State
    pub that_state : that.State

  abbrev answers_yes : Result Bool → Bool
  answers_yes (ok has) = has
  answers_yes (err e) = false

  unfoldable pub has : Str → ItttStore → Result Bool × ItttStore
  has hash c =
      let (r, s) = this.has hash c.this_state in
      if answers_yes r
      then (r, record c { this_state = s })
      else (let (r2, t) = that.has hash c.that_state in
          (r2, record { this_state = s; that_state = t }))

  abbrev is_ok : Result Blob → Bool
  is_ok (ok blob) = true
  is_ok (err e) = false

  unfoldable pub get : Str → ItttStore → Result Blob × BlobTrace × ItttStore
  get hash c =
      let (r, trace, s) = this.get hash c.this_state in
      if is_ok r
      then (r, stack trace name_ittt, record c { this_state = s })
      else (let (r2, trace2, t) = that.get hash c.that_state in
          (r2, stack trace2 name_ittt, record { this_state = s; that_state = t }))

  -- `Put`, `PutSD`, `Delete` and `Shutdown`
  abbrev pub ittt_store : BlobStore
  ittt_store = record {
    State = ItttStore;
    name = name_ittt;
    has = has;
    get = get;
    put = λ hash blob c. (err not_implemented, c);
    put_sd = λ hash blob c. (err not_implemented, c);
    delete = λ hash c. (err not_implemented, c);
    shutdown = λ c. c;
  }
