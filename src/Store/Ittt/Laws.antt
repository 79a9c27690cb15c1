-- ===== src/Store/Ittt/Laws.antt =====
-- What `ItttStore` answers over two stores that keep their contracts.
use reflector_go.Errors.{
  Result-cases, not_implemented, external, Result, ok, err, blob_not_found, message,
}
use reflector_go.Store.{Blob, BlobStore, Spec, Implements, IsRead}
use reflector_go.Store.Ittt.{ItttStore, get, is_ok}
use reflector_go.Prelude.{Str, inl, ◌≡◌, inr, some, ◌⊎◌, none, refl}

module _ {this that : BlobStore} (A : Spec this) (B : Spec that) where
  -- An answer about the blobs of the two stores before the call: a blob that is returned is held by
  -- one of them, and "not found" means that `that` does not hold it.
  abbrev pub IsAnswerOf : ItttStore this that → Str → Result Blob → Type 0
  IsAnswerOf c h (ok b) = (A.view c.this_state h ≡ some b) ⊎ (B.view c.that_state h ≡ some b)
  IsAnswerOf c h (err blob_not_found) = B.view c.that_state h ≡ none
  IsAnswerOf c h (err not_implemented) = Unit
  IsAnswerOf c h (err (message _)) = Unit
  IsAnswerOf c h (err (external _)) = Unit

  -- Neither store changes what it holds.
  abbrev pub IsReadOfBoth : ItttStore this that → ItttStore this that → Type 0
  IsReadOfBoth c d = IsRead A c.this_state d.this_state × IsRead B c.that_state d.that_state

  module _ (IA : Implements A) (IB : Implements B) where
    from_that-IsAnswerOf :
        (c : ItttStore this that) (h : Str) (r : Result Blob)
        → ((b : Blob) → r ≡ ok b → B.view c.that_state h ≡ some b)
        → (r ≡ err blob_not_found → B.view c.that_state h ≡ none)
        → IsAnswerOf c h r
    from_that-IsAnswerOf c h (ok b) held gone = inr (held b refl)
    from_that-IsAnswerOf c h (err blob_not_found) held gone = gone refl
    from_that-IsAnswerOf c h (err not_implemented) held gone = tt
    from_that-IsAnswerOf c h (err (message _)) held gone = tt
    from_that-IsAnswerOf c h (err (external _)) held gone = tt

    -- `Get` over two stores that keep their contracts returns only blobs that one of the two holds,
    -- answers "not found" only if the second does not hold the blob, and changes neither.
    pub ittt_store-get :
        (h : Str) (c : ItttStore this that)
        → A.IsValid c.this_state
        → B.IsValid c.that_state
        → let out = get this that h c in IsAnswerOf c h out.0 × IsReadOfBoth c out.2
    unfolding get
    ittt_store-get h c v w =
        let r = IA.get_read h c.this_state v in
        elim (Result-cases (this.get h c.this_state).0) [
          | inl (b, e) ↦
              rw (e, is_ok) (inl (IA.get_ok h _ b v e), (r, record { valid = w; same = λ j. refl }))
          | inr (x, e) ↦
              rw (e, is_ok)
                (
                  from_that-IsAnswerOf c h (that.get h c.that_state).0 (λ b f. IB.get_ok h _ b w f)
                      (IB.get_missing h _ w),
                  (r, IB.get_read h c.that_state w),
                )
        ]
