-- ===== src/Store/Caching/Coherence.antt =====
-- When the two parts of a `CachingStore` agree, and that writes to both keep them so.
use reflector_go.Store.{
  Blob, BlobStore, Spec, IsWrite, Str, Done, ◌≡◌, some, ok, err, ◌⊎◌, blob_not_found,
}
use reflector_go.Store.Caching.{CachingStore, caching_store, both_parts}
use reflector_go.Prelude.{inl, inr, arith, Bool-cases, refl, str_eq, subst, ◌∙◌, str_eq_iff, sym}

module _ {origin cache : BlobStore} (A : Spec origin) (C : Spec cache) where
  -- Both parts are valid, and what the cache holds the origin holds too.
  pub record IsCoherent (c : CachingStore origin cache) : Type 0 where
    pub origin_valid : A.IsValid c.origin_state
    pub cache_valid : C.IsValid c.cache_state
    pub coherent :
        (j : Str) (b : Blob) → C.view c.cache_state j ≡ some b → A.view c.origin_state j ≡ some b

  abbrev pub caching_spec : Spec (caching_store origin cache)
  caching_spec = record {
    IsValid = IsCoherent;
    Fits = λ h b. A.Fits h b × C.Fits h b;
    view = λ c. A.view c.origin_state;
  }

  -- The hash of a blob settles the blob: what the origin holds under a hash is the one blob that
  -- fits it, and the cache may take it.
  pub record IsAddressed : Type 0 where
    pub one_blob :
        (h : Str) (b b' : Blob) (s : origin.State)
        → A.Fits h b
        → A.IsValid s
        → A.view s h ≡ some b'
        → b' ≡ b
    pub cacheable :
        (h : Str) (b : Blob) (s : origin.State) → A.IsValid s → A.view s h ≡ some b → C.Fits h b

module _ {origin cache : BlobStore} {A : Spec origin} {C : Spec cache}
    (addressed : IsAddressed A C) where
  -- After a write of `b` under `h` to both parts, of which either may have failed, the entries under
  -- `h` agree: the cache was written only behind a successful write to the origin.
  agree_at :
      (h : Str) (b b' : Blob) (c : CachingStore origin cache) {r r' : Done} {t : origin.State}
      {s : cache.State}
      → A.Fits h b
      → IsCoherent A C c
      → IsWrite A h (some b) c.origin_state r t
      → IsWrite C h (some b) c.cache_state r' s
      → (r ≡ ok tt) ⊎ (C.view s h ≡ C.view c.cache_state h)
      → C.view s h ≡ some b'
      → A.view t h ≡ some b'
  agree_at h b b' c f v w u e held = ground (
    arith,
    v.coherent h b',
    addressed.one_blob h b b' c.origin_state f v.origin_valid,
    w.written,
    w.at,
    u.at,
  )

  put-IsCoherent :
      (h : Str) (b : Blob) (c : CachingStore origin cache) {r r' : Done} {t : origin.State}
      {s : cache.State}
      → A.Fits h b
      → IsCoherent A C c
      → IsWrite A h (some b) c.origin_state r t
      → IsWrite C h (some b) c.cache_state r' s
      → (r ≡ ok tt) ⊎ (C.view s h ≡ C.view c.cache_state h)
      → IsCoherent A C (record { origin_state = t; cache_state = s })
  put-IsCoherent h b c {t = t} {s = s} f v w u e = record {
    origin_valid = w.valid;
    cache_valid = u.valid;
    coherent = λ j b'. elim (Bool-cases (str_eq h j)) [
      | inl same ↦
          subst (λ k. C.view s k ≡ some b' → A.view t k ≡ some b') ((str_eq_iff h j).0 same)
            (agree_at h b b' c f v w u e)
      | inr other ↦ λ held. w.others j other ∙ v.coherent j b' (sym (u.others j other) ∙ held)
    ];
  }

  -- The cache left as it is.
  untouched-IsWrite :
      (h : Str) (b : Blob) (c : cache.State)
      → C.IsValid c
      → IsWrite C h (some b) c (err blob_not_found) c
  untouched-IsWrite h b c v = record {
    valid = v;
    others = λ j ne. refl;
    written = λ e. cc;
    at = inr refl;
  }

  pub put_both :
      (h : Str) (b : Blob) (c : CachingStore origin cache) (on_origin : Done × origin.State)
      (on_cache : Done × cache.State)
      → A.Fits h b
      → IsCoherent A C c
      → IsWrite A h (some b) c.origin_state on_origin.0 on_origin.1
      → IsWrite C h (some b) c.cache_state on_cache.0 on_cache.1
      → let out = both_parts origin cache c on_origin on_cache in
        IsWrite (caching_spec A C) h (some b) c out.0 out.1
  put_both h b c (ok _, t) (r', s) f v w u = record {
    valid = put-IsCoherent h b c f v w u (inl refl);
    others = w.others;
    written = λ e. w.written refl;
    at = w.at;
  }
  put_both h b c (err e, t) (r', s) f v w u = record {
    valid =
        put-IsCoherent h b c f v w (untouched-IsWrite h b c.cache_state v.cache_valid) (inr refl);
    others = w.others;
    written = λ e. cc;
    at = w.at;
  }
