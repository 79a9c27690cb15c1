-- ===== src/Store/Caching/Hits.antt =====
-- What the cache of a `CachingStore` saves, and how a blob leaves both parts.
use reflector_go.Errors.{Done, ok, err}
use reflector_go.Store.{Blob, BlobStore, Spec, Implements, Deletes, IsWrite}
use reflector_go.Store.Caching.{CachingStore, get, put, delete, both_parts}
use reflector_go.Store.Caching.Coherence.{IsCoherent, caching_spec}
use reflector_go.Prelude.{
  Str, ◌≡◌, none, some, Bool-cases, str_eq, inl, subst, str_eq_iff, sym, ◌∙◌, inr, refl,
}

module _ {origin cache : BlobStore} (A : Spec origin) (C : Spec cache) where
  delete_both :
      (h : Str) (c : CachingStore origin cache) (on_origin : Done × origin.State)
      (on_cache : Done × cache.State)
      → IsCoherent A C c
      → IsWrite A h none c.origin_state on_origin.0 on_origin.1
      → IsWrite C h none c.cache_state on_cache.0 on_cache.1
      → (both_parts origin cache c on_origin on_cache).0 ≡ ok tt
      → IsWrite (caching_spec A C) h none c (ok tt) (both_parts origin cache c on_origin on_cache).1
  delete_both h c (err x, t) (r, s) v w u e = cc
  delete_both h c (ok _, t) (r, s) v w u e = record {
    valid = record {
      origin_valid = w.valid;
      cache_valid = u.valid;
      coherent = λ j b. elim (Bool-cases (str_eq h j)) [
        | inl same ↦ λ held.
            let gone : C.view s j ≡ none =
              subst (λ k. C.view s k ≡ none) ((str_eq_iff h j).0 same) (u.written e) in
            let clash = sym gone ∙ held in cc
        | inr other ↦ λ held. w.others j other ∙ v.coherent j b (sym (u.others j other) ∙ held)
      ];
    };
    others = w.others;
    written = λ e'. w.written refl;
    at = w.at;
  }

  -- A `Delete` that succeeds over a coherent pair of stores whose own `Delete` keeps its contract
  -- removes the blob, and nothing else, and the pair is still coherent: the cache does not serve the
  -- blob any more.
  pub caching_store-delete :
      (DA : Deletes A) (DC : Deletes C) (h : Str) (c : CachingStore origin cache)
      → IsCoherent A C c
      → (delete origin cache h c).0 ≡ ok tt
      → IsWrite (caching_spec A C) h none c (ok tt) (delete origin cache h c).1
  unfolding delete
  caching_store-delete DA DC h c v e =
      delete_both h c (origin.delete h c.origin_state) (cache.delete h c.cache_state) v
        (DA.delete_write h _ v.origin_valid) (DC.delete_write h _ v.cache_valid) e

  cache_hit :
      (h : Str) (c : CachingStore origin cache) (b : Blob)
      → (cache.get h c.cache_state).0 ≡ ok b
      → ((get origin cache h c).0 ≡ ok b) × ((get origin cache h c).2.origin_state ≡ c.origin_state)
  unfolding get
  cache_hit h c b e = rw e (refl, refl)

  put_both_held :
      (h : Str) (b : Blob) (c : CachingStore origin cache) (on_origin : Done × origin.State)
      (on_cache : Done × cache.State)
      → IsWrite C h (some b) c.cache_state on_cache.0 on_cache.1
      → (both_parts origin cache c on_origin on_cache).0 ≡ ok tt
      → let s = (both_parts origin cache c on_origin on_cache).1.cache_state in
        C.IsValid s × (C.view s h ≡ some b)
  put_both_held h b c (ok _, t) (r, s) u e = (u.valid, u.written e)
  put_both_held h b c (err x, t) (r, s) u e = cc

  -- What was put is served by the cache: after a `Put` that succeeded, with a cache that keeps its
  -- contract and whose `Get` does not fail on what it holds, `Get` returns the blob and does not touch
  -- the origin.
  pub caching_store-put-get :
      (IC : Implements C)
      (serves : (j : Str) (s : cache.State) (x : Blob)
        → C.IsValid s
        → C.view s j ≡ some x
        → (cache.get j s).0 ≡ ok x)
      (h : Str) (b : Blob) (c : CachingStore origin cache)
      → C.Fits h b
      → C.IsValid c.cache_state
      → (put origin cache h b c).0 ≡ ok tt
      → let c' = (put origin cache h b c).1 in
        ((get origin cache h c').0 ≡ ok b)
        × ((get origin cache h c').2.origin_state ≡ c'.origin_state)
  unfolding put
  caching_store-put-get IC serves h b c f v e =
      let (valid, held) =
        put_both_held h b c (origin.put h b c.origin_state) (cache.put h b c.cache_state)
          (IC.put_write h b _ f v) e in
      cache_hit h _ b (serves h _ b valid held)
