-- ===== src/Http/Contract/Laws.antt =====
-- What a client may conclude from the responses of the HTTP server.
use reflector_go.Http.{Response}
use reflector_go.Http.Server
use reflector_go.Http.Server.{HttpServer}
use reflector_go.Http.Contract.{IsServing, IsCache}
use reflector_go.Store.{Blob, BlobStore, Spec, Implements, IsRead, not_some}
use reflector_go.Store.Gcache.{Cache}
use reflector_go.Shared.{BlobTrace, new_blob_trace}
use reflector_go.Errors.{Error, Result, ok, err, blob_not_found, is_not_found, is_not_found_lem}
use reflector_go.Prelude.{
  Option, Str, is_some, ◌≡◌, ◌≢◌, Bool, arith, ◌∙◌, true, sym, false, none, [], some, refl, inl,
  Bool-cases, inr, bytes, ap, subst,
}

-- What an exchange about one hash says of the blob that the server's store holds under it.
pub record IsHonest (held : Option Blob) (r : Result Response) : Type 0 where
  pub reached : r ≢ err blob_not_found
  pub has : (res : Response) → r ≡ ok res → res.status ≡ 204 → is_some held ≡ true
  pub gets :
      (res : Response) (b : Blob) → r ≡ ok res → res.status ≡ 200 → res.body ≡ ok b → held ≡ some b
  pub misses : (res : Response) → r ≡ ok res → res.status ≡ 404 → held ≡ none
  pub reads : (res : Response) → r ≡ ok res → res.body ≢ err blob_not_found

failure-IsHonest :
    (held : Option Blob) (via : Str) (text : Str)
    → IsHonest held (ok (record { status = 500; via = via; body = ok text }))
failure-IsHonest held via text = record {
  reached = λ e. cc;
  has = λ res e s. ground arith;
  gets = λ res b e s t. ground arith;
  misses = λ res e s. ground arith;
  reads = λ res e s. ground arith;
}

-- The handlers: the response is honest, and the server serves the same blobs behind it.
module _ (store : BlobStore) (misses : Cache) (serialize : BlobTrace → Result Str)
    (text : Error → Str) (A : Spec store) where
  abbrev pub Handled : Type 0
  Handled = HttpServer store misses serialize text

  -- What a handler has done.
  pub record IsHandled (h : Str) (s : Handled) (out : Response × Handled) : Type 0 where
    pub honest : IsHonest (A.view s.store_state h) (ok (out.0))
    pub serving : IsServing store misses serialize text A (out.1)
    pub same : (j : Str) → A.view (out.1.store_state) j ≡ A.view s.store_state j

  module _ (I : Implements A) where
    has_response-IsHonest :
        (held : Option Blob) (r : Result Bool)
        → ((b : Bool) → r ≡ ok b → b ≡ is_some held)
        → IsHonest held (ok (Server.has_response store misses serialize text r))
    has_response-IsHonest held (ok true) f = record {
      reached = λ e. cc;
      has = λ res e s. sym (f true refl);
      gets = λ res b e s t. ground arith;
      misses = λ res e s. ground arith;
      reads = λ res e t. ground arith;
    }
    has_response-IsHonest held (ok false) f = record {
      reached = λ e. cc;
      has = λ res e s. ground arith;
      gets = λ res b e s t. ground arith;
      misses = λ res e s. not_some held (sym (f false refl));
      reads = λ res e t. ground arith;
    }
    has_response-IsHonest held (err e) f = failure-IsHonest held [] (text e)

    keeps_IsServing :
        (s : Handled) (t : store.State)
        → IsServing store misses serialize text A s
        → IsRead A s.store_state t
        → IsServing store misses serialize text A (record s { store_state = t })
    keeps_IsServing s t v r = record { valid = r.valid; missed = λ j m. r.same j ∙ v.missed j m }

    pub has_blob-IsHandled :
        (h : Str) (s : Handled)
        → IsServing store misses serialize text A s
        → IsHandled h s (Server.has_blob store misses serialize text h s)
    unfolding Server.has_blob
    has_blob-IsHandled h s v =
        let r = I.has_read h s.store_state v.valid in
        record {
          honest =
              has_response-IsHonest _ (store.has h s.store_state).0
                (λ b e. I.has_ok h s.store_state b v.valid e);
          serving = keeps_IsServing s _ v r;
          same = r.same;
        }

    miss_response-IsHonest :
        (r : Result Str) → IsHonest none (ok (Server.miss_response store misses serialize text r))
    miss_response-IsHonest (ok via) = record {
      reached = λ e. cc;
      has = λ res e s. ground arith;
      gets = λ res b e s t. ground arith;
      misses = λ res e s. refl;
      reads = λ res e t. ground arith;
    }
    miss_response-IsHonest (err e) = failure-IsHonest none [] (text e)

    -- The answer of the store and what was read of it.
    AnswerOf : (held : Option Blob) (r : Result Blob) → Type 0
    AnswerOf held r =
        ((b : Blob) → r ≡ ok b → held ≡ some b) × (r ≡ err blob_not_found → held ≡ none)

    miss_noted :
        (h : Str) (s : Handled)
        → IsCache misses
        → IsServing store misses serialize text A s
        → A.view s.store_state h ≡ none
        → IsServing store misses serialize text A
            (record s { misses_cache = (misses.set h s.misses_cache).1 })
    miss_noted h s c v m = record {
      valid = v.valid;
      missed = λ j e. elim (c.has_set h j s.misses_cache e) [
        | inl same ↦ rw same m
        | inr before ↦ v.missed j before
      ];
    }

    get_response-IsHandled :
        (h : Str) (r : Result Blob) (via : Result Str) (s : Handled)
        → IsCache misses
        → IsServing store misses serialize text A s
        → AnswerOf (A.view s.store_state h) r
        → IsHandled h s (Server.get_response store misses serialize text h r via s)
    unfolding Server.get_response AnswerOf
    get_response-IsHandled h (ok blob) (ok via) s c v a = record {
      honest = record {
        reached = λ e. cc;
        has = λ res e s'. ground arith;
        gets = λ res b e s' t. a.0 b (ground arith);
        misses = λ res e s'. ground arith;
        reads = λ res e t. ground arith;
      };
      serving = v;
      same = λ j. refl;
    }
    get_response-IsHandled h (ok blob) (err x) s c v a = record {
      honest = failure-IsHonest _ [] (text x);
      serving = v;
      same = λ j. refl;
    }
    get_response-IsHandled h (err e) (err x) s c v a = record {
      honest = failure-IsHonest _ [] (text e);
      serving = v;
      same = λ j. refl;
    }
    get_response-IsHandled h (err e) (ok via) s c v a = elim (Bool-cases (is_not_found e)) [
      | inl missing ↦ rw missing (
          let m = a.1 (ap err (is_not_found_lem e missing)) in
          record {
            honest = rw m (miss_response-IsHonest (ok via));
            serving = miss_noted h s c v m;
            same = λ j. refl;
          })
      | inr other ↦
          rw other
            (record { honest = failure-IsHonest _ via (text e); serving = v; same = λ j. refl })
    ]

    handled_after :
        (h : Str) (s : Handled) (t : store.State) {out : Response × Handled}
        → IsRead A s.store_state t
        → IsHandled h (record s { store_state = t }) out
        → IsHandled h s out
    handled_after h s t {out} read done = record {
      honest = subst (λ o. IsHonest o (ok (out.0))) (read.same h) done.honest;
      serving = done.serving;
      same = λ j. done.same j ∙ read.same j;
    }

    pub handle_get_blob-IsHandled :
        (h : Str) (s : Handled)
        → IsCache misses
        → IsServing store misses serialize text A s
        → IsHandled h s (Server.handle_get_blob store misses serialize text h s)
    unfolding Server.handle_get_blob AnswerOf
    handle_get_blob-IsHandled h s c v =
        let out = store.get h s.store_state in
        let read = I.get_read h s.store_state v.valid in
        elim (Bool-cases (misses.has h s.misses_cache)) [
          | inl missed ↦ rw missed (record {
            honest =
                rw (v.missed h missed)
                  (miss_response-IsHonest (serialize (new_blob_trace (bytes "http"))));
            serving = v;
            same = λ j. refl;
          })
          | inr other ↦ rw other (
              handled_after h s (out.2) read (
                get_response-IsHandled h (out.0) (serialize (out.1)) _ c
                  (keeps_IsServing s (out.2) v read)
                  (
                    λ b e. read.same h ∙ I.get_ok h s.store_state b v.valid e,
                    λ e. read.same h ∙ I.get_missing h s.store_state v.valid e,
                  )))
        ]
