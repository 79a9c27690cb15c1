-- ===== src/Store/SingleFlight.antt =====
-- store/singleflight.go: `WithSingleFlight`. `singleflight.Group` is a library's, so a group is a
-- parameter: `do_call hash fn` is what `sf.Do(hash, fn)` makes of a call on the store's state.
-- The embedded `BlobStore` serves `Has`, `PutSD` and `Delete` directly.
pub mod Laws
use reflector_go.Prelude.{◌≡◌, ◌++◌, Str, bytes, refl, arith, ◌⊎◌, inl, inr}
use reflector_go.Errors.{Result, ok, err, error_text, Done}
use reflector_go.Shared.{BlobTrace, stack, new_blob_trace}
use reflector_go.Store.{Blob, BlobStore, Spec, Implements}

-- The `interface{}` that `Do` returns: nil, or a `getterResponse`.
pub data Response : Type 0 where
  nil_response : Response
  getter_response : Blob → BlobTrace → Response

pub record Group (S : Type 0) : Type 0 where
  pub do_call : Str → (S → Result Response × S) → S → Result Response × S

-- With no other call in flight `Do` runs the function and returns what it returns.
abbrev pub IsAlone : {S : Type 0} → Group S → Type 0
IsAlone {S} g = (h : Str) (f : S → Result Response × S) (s : S) → g.do_call h f s ≡ f s

module _ (origin : BlobStore) where
  abbrev sf_name : Str
  sf_name = bytes "sf_" ++ origin.name

  abbrev getter_result : Result Blob × BlobTrace × origin.State → Result Response × origin.State
  getter_result (ok blob, trace, s) = (ok (getter_response blob (stack trace sf_name)), s)
  getter_result (err e, trace, s) = (err e, s)

  -- `s.getter(hash)`
  unfoldable pub getter : Str → origin.State → Result Response × origin.State
  getter hash s = getter_result (origin.get hash s)

  abbrev putter_result : Done × origin.State → Result Response × origin.State
  putter_result (ok _, s) = (ok nil_response, s)
  putter_result (err e, s) = (err e, s)

  -- `s.putter(hash, blob)`
  unfoldable pub putter : Str → Blob → origin.State → Result Response × origin.State
  putter hash blob s = putter_result (origin.put hash blob s)

  module _ (sf : Group origin.State) where
    abbrev get_reply : Result Response × origin.State → Result Blob × BlobTrace × origin.State
    get_reply (ok (getter_response blob trace), s) = (ok blob, trace, s)
    get_reply (ok nil_response, s) =
        (err (error_text "getter response is nil"), new_blob_trace sf_name, s)
    get_reply (err e, s) = (err e, new_blob_trace sf_name, s)

    unfoldable pub get : Str → origin.State → Result Blob × BlobTrace × origin.State
    unfolding getter
    get hash s = get_reply (sf.do_call hash (getter hash) s)

    abbrev put_reply : Result Response × origin.State → Done × origin.State
    put_reply (ok _, s) = (ok tt, s)
    put_reply (err e, s) = (err e, s)

    unfoldable pub put : Str → Blob → origin.State → Done × origin.State
    unfolding putter
    put hash blob s = put_reply (sf.do_call hash (putter hash blob) s)

    abbrev pub with_single_flight : BlobStore
    with_single_flight = record {
      State = origin.State;
      name = sf_name;
      has = origin.has;
      get = get;
      put = put;
      put_sd = origin.put_sd;
      delete = origin.delete;
      shutdown = origin.shutdown;
    }
