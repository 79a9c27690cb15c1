-- ===== src/Store/Caching/Laws.antt =====
-- `CachingStore` is the store that its origin is, as long as the cache holds nothing else.
use reflector_go.Store.{
  Blob, BlobStore, Spec, Implements, IsRead, IsWrite, Str, Done, ◌≡◌, some, ok, err, blob_not_found,
}
use reflector_go.Store.Caching.{
  CachingStore, has, settles, get, get_from_origin, is_hit, put, put_sd,
}
use reflector_go.Prelude.{
  inl, inr, arith, Bool-cases, refl, str_eq, Bool, subst, ◌∙◌, str_eq_iff, sym, is_some,
  Option-cases, true, false, none,
}
use reflector_go.Errors.{Result-cases}
use reflector_go.Store.Caching.Coherence.{IsCoherent, IsAddressed, caching_spec, put_both}

module _ {origin cache : BlobStore} {A : Spec origin} {C : Spec cache} (IA : Implements A)
    (IC : Implements C) (addressed : IsAddressed A C) where
  has_answer :
      (h : Str) (c : CachingStore origin cache) (b : Bool)
      → IsCoherent A C c
      → (has origin cache h c).0 ≡ ok b
      → b ≡ is_some (A.view c.origin_state h)
  unfolding has
  has_answer h c b v e = elim (Option-cases (C.view c.cache_state h)) [
    | inl gone ↦ ground (
      arith,
      IC.has_ok h c.cache_state true v.cache_valid,
      IA.has_ok h c.origin_state b v.origin_valid,
    )
    | inr (x, held) ↦ ground (
      arith,
      v.coherent h x held,
      IC.has_ok h c.cache_state false v.cache_valid,
      IA.has_ok h c.origin_state b v.origin_valid,
    )
  ]

  -- Reads of both parts keep them coherent.
  both-IsRead :
      (c : CachingStore origin cache) (t : origin.State) (s : cache.State)
      → IsCoherent A C c
      → IsRead A c.origin_state t
      → IsRead C c.cache_state s
      → IsRead (caching_spec A C) c (record { origin_state = t; cache_state = s })
  both-IsRead c t s v r q = record {
    valid = record {
      origin_valid = r.valid;
      cache_valid = q.valid;
      coherent = λ j b held. r.same j ∙ v.coherent j b (sym (q.same j) ∙ held);
    };
    same = r.same;
  }

  idle : (t : origin.State) → A.IsValid t → IsRead A t t
  idle t v = record { valid = v; same = λ j. refl }

  has_keeps :
      (h : Str) (c : CachingStore origin cache)
      → IsCoherent A C c
      → IsRead (caching_spec A C) c (has origin cache h c).1
  unfolding has
  has_keeps h c v = elim (Bool-cases (settles origin cache (cache.has h c.cache_state).0)) [
    | inl hit ↦
        rw hit
          (both-IsRead c c.origin_state _ v (idle _ v.origin_valid) (IC.has_read h _ v.cache_valid))
    | inr miss ↦
        rw miss
          (both-IsRead c _ _ v (IA.has_read h _ v.origin_valid) (IC.has_read h _ v.cache_valid))
  ]

  -- Saving in the cache what the origin holds keeps the parts coherent.
  fill_coherent :
      (h : Str) (b : Blob) (c : CachingStore origin cache) {r' : Done} {t : origin.State}
      {s : cache.State}
      → IsCoherent A C c
      → A.view c.origin_state h ≡ some b
      → IsRead A c.origin_state t
      → IsWrite C h (some b) c.cache_state r' s
      → IsRead (caching_spec A C) c (record { origin_state = t; cache_state = s })
  fill_coherent h b c {t = t} {s = s} v at_origin r u = record {
    valid = record {
      origin_valid = r.valid;
      cache_valid = u.valid;
      coherent = λ j b'. elim (Bool-cases (str_eq h j)) [
        | inl same ↦
            subst (λ k. C.view s k ≡ some b' → A.view t k ≡ some b') ((str_eq_iff h j).0 same)
              (λ held. ground (arith, r.same h, v.coherent h b', u.at))
        | inr other ↦ λ held. r.same j ∙ v.coherent j b' (sym (u.others j other) ∙ held)
      ];
    };
    same = r.same;
  }

  from_origin_keeps :
      (h : Str) (c : CachingStore origin cache)
      → IsCoherent A C c
      → IsRead (caching_spec A C) c (get_from_origin origin cache h c).2
  unfolding get_from_origin
  from_origin_keeps h c v = elim (Result-cases (origin.get h c.origin_state).0) [
    | inl (b, found) ↦
        let held = IA.get_ok h c.origin_state b v.origin_valid found in
        rw (found, get_from_origin)
          (fill_coherent h b c v held (IA.get_read h _ v.origin_valid)
            (IC.put_write h b _ (addressed.cacheable h b _ v.origin_valid held) v.cache_valid))
    | inr (e, failed) ↦
        rw (failed, get_from_origin)
          (both-IsRead c _ c.cache_state v (IA.get_read h _ v.origin_valid)
            (record { valid = v.cache_valid; same = λ j. refl }))
  ]

  -- The answer of `get_from_origin` is the origin's.
  from_origin_answer :
      (h : Str) (c : CachingStore origin cache)
      → (get_from_origin origin cache h c).0 ≡ (origin.get h c.origin_state).0
  unfolding get_from_origin
  from_origin_answer h c = ground (arith, Result-cases (origin.get h c.origin_state).0)

  get_keeps :
      (h : Str) (c : CachingStore origin cache)
      → IsCoherent A C c
      → IsRead (caching_spec A C) c (get origin cache h c).2
  unfolding get
  get_keeps h c v = elim (Bool-cases (is_hit origin cache (cache.get h c.cache_state).0)) [
    | inl hit ↦
        rw hit
          (both-IsRead c c.origin_state _ v (idle _ v.origin_valid) (IC.get_read h _ v.cache_valid))
    | inr miss ↦
        let c' : CachingStore origin cache = record {
          origin_state = c.origin_state;
          cache_state = (cache.get h c.cache_state).2;
        } in
        let r =
          both-IsRead c c.origin_state _ v (idle _ v.origin_valid)
            (IC.get_read h _ v.cache_valid) in
        let r' = from_origin_keeps h c' r.valid in
        rw miss (record { valid = r'.valid; same = r'.same })
  ]

  get_answer :
      (h : Str) (c : CachingStore origin cache) (b : Blob)
      → IsCoherent A C c
      → (get origin cache h c).0 ≡ ok b
      → A.view c.origin_state h ≡ some b
  unfolding get
  get_answer h c b v e = elim (Result-cases (cache.get h c.cache_state).0) [
    | inl (x, hit) ↦ ground (arith, v.coherent h x (IC.get_ok h _ x v.cache_valid hit))
    | inr (x, miss) ↦
        let c' : CachingStore origin cache = record {
          origin_state = c.origin_state;
          cache_state = (cache.get h c.cache_state).2;
        } in
        ground (arith, from_origin_answer h c', IA.get_ok h c.origin_state b v.origin_valid)
  ]

  get_missed :
      (h : Str) (c : CachingStore origin cache)
      → IsCoherent A C c
      → (get origin cache h c).0 ≡ err blob_not_found
      → A.view c.origin_state h ≡ none
  unfolding get
  get_missed h c v e = elim (Bool-cases (is_hit origin cache (cache.get h c.cache_state).0)) [
    | inl hit ↦ ground (arith, Result-cases (cache.get h c.cache_state).0)
    | inr miss ↦
        let c' : CachingStore origin cache = record {
          origin_state = c.origin_state;
          cache_state = (cache.get h c.cache_state).2;
        } in
        ground (arith, from_origin_answer h c', IA.get_missing h c.origin_state v.origin_valid)
  ]

  -- Over a coherent pair of stores that keep the contract, `CachingStore` keeps the contract of its
  -- origin, and the pair stays coherent, also where one of the two stores fails: the cache changes
  -- neither answers nor contents.
  pub caching_store-Implements : Implements (caching_spec A C)
  unfolding put put_sd
  caching_store-Implements = record {
    has_ok = λ h c b v e. has_answer h c b v e;
    has_read = has_keeps;
    get_ok = get_answer;
    get_missing = get_missed;
    get_read = get_keeps;
    put_write = λ h b c f v.
        put_both addressed h b c (origin.put h b c.origin_state) (cache.put h b c.cache_state) f.0 v
          (IA.put_write h b _ f.0 v.origin_valid) (IC.put_write h b _ f.1 v.cache_valid);
    put_sd_write = λ h b c f v.
        put_both addressed h b c (origin.put_sd h b c.origin_state) (cache.put_sd h b c.cache_state)
          f.0 v (IA.put_sd_write h b _ f.0 v.origin_valid)
          (IC.put_sd_write h b _ f.1 v.cache_valid);
  }
