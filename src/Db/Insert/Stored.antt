-- ===== src/Db/Insert/Stored.antt =====
-- Which blobs are stored after `AddBlob`.
use reflector_go.Db.Insert.Leaves.{update_blob-stored, Leaves, exec_loop-cases}
use reflector_go.Db.Tables.{Tables, find_blob, blob_insert}
use reflector_go.Db.Exec.{guard, ◌>>◌, Act, continue, exec, max_attempts}
use reflector_go.Db.Lookup.Batches.{is_stored_in}
use reflector_go.Errors.{Error, Result, ok, err}
use reflector_go.Prelude.{
  Bool, Str, ℕ, ◌∙◌, ◌≡◌, true, refl, ◌⊎◌, false, str_eq, ◌||◌, inl, inr, arith, ◌≢◌, Option,
  Option-cases,
}

-- The blob with this hash is stored after the step, and of the others those that were before.
abbrev pub IsAdded : Str → Tables → Tables → Type 0
IsAdded hash t t' = (h : Str) → is_stored_in t'.blob_ h ≡ (str_eq hash h || is_stored_in t.blob_ h)

abbrev pub IsLeft : Tables → Tables → Type 0
IsLeft t t' = (h : Str) → is_stored_in t'.blob_ h ≡ is_stored_in t.blob_ h

abbrev pub AddsOrFails {ℓ} : {A : Type ℓ} → Str → Tables → Result A × Tables → Type ℓ
AddsOrFails {A = A} hash t r = IsAdded hash t r.1 ⊎ (IsLeft t r.1 × ((a : A) → r.0 ≢ ok a))

pub AddsOrFails-continue {ℓ κ} :
    {A : Type ℓ} {B : Type κ} (hash : Str) (t : Tables) (r : Result A × Tables) (f : A → Act B)
    → AddsOrFails hash t r
    → ((a : A) → Leaves (f a))
    → AddsOrFails hash t (continue r f)
AddsOrFails-continue hash t (ok a, t') f (inl added) k = inl λ h. (k a).at t' h ∙ added h
AddsOrFails-continue hash t (ok a, t') f (inr (same, never)) k = absurd (never a refl)
AddsOrFails-continue hash t (err e, t') f (inl added) k = inl added
AddsOrFails-continue hash t (err e, t') f (inr (same, never)) k = inr (same, λ b e'. cc)

blob_insert-IsAdded :
    (hash : Str) (length : ℕ) (accessed : Option ℕ) (t : Tables)
    → IsAdded hash t (blob_insert hash true length accessed t).1
unfolding blob_insert
blob_insert-IsAdded hash length accessed t h = elim (Option-cases (find_blob hash t.blob_)) [
  | inl new ↦ rw (new, blob_insert) (ground arith)
  | inr (old, found) ↦
      rw (found, blob_insert)
        (update_blob-stored hash h _ t.blob_ old (λ r. (refl, ground arith)) found)
]

pub AddsOrFails-exec :
    (hash : Str) (length : ℕ) (accessed : Option ℕ) (t : Tables)
    → AddsOrFails hash t (exec (blob_insert hash true length accessed) t)
unfolding exec
AddsOrFails-exec hash length accessed t =
    let q = blob_insert hash true length accessed in
    let (rest, r) = exec_loop-cases max_attempts q t in
    elim r [
      | inl ran ↦
          rw ran (inl (blob_insert-IsAdded hash length accessed (record t { answers = rest })))
      | inr (e, failed) ↦ rw failed (inr (λ h. refl, λ a f. cc))
    ]

pub AddsOrFails-guard :
    (c : Bool) (e : Error) (hash : Str) (m : Act (Unit {0})) (t : Tables)
    → AddsOrFails hash t (m t)
    → AddsOrFails hash t ((guard c e >> m) t)
AddsOrFails-guard true e hash m t p = p
AddsOrFails-guard false e hash m t p = inr (λ h. refl, λ a f. cc)
