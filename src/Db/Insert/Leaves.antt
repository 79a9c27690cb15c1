-- ===== src/Db/Insert/Leaves.antt =====
-- The statements and calls that change no blob's mark, and what `exec` makes of a statement.
use reflector_go.Db.Tables.{
  Tables, BlobRow, Answer, works, lock_timeout, breaks, find_blob, update_blob, blob_touch,
}
use reflector_go.Db.Exec.{
  Act, pure, fail, continue, ◌>>=◌, once, exec_loop, take_answer, attempt, exec, max_attempts,
}
use reflector_go.Db.Insert.{touch_blobs, blob_id_by_select, select_blob_id, ignore, id_of, Sql}
use reflector_go.Db.Lookup.Batches.{is_stored_in}
use reflector_go.Errors.{Error, Result, ok, err, external}
use reflector_go.Prelude.{
  Bool, Str, ℕ, ◌∙◌, List, if◌then◌else◌, ◌≡◌, true, refl, ◌⊎◌, false, suc, some, zero, str_eq,
  ◌||◌, ◌∷◌, [], inl, inr, arith, map, str_eq_iff, any, ◌==◌, Bool-cases, Option, none,
}

-- A call that changes no row's hash and no row's mark.
pub record Leaves {ℓ} {A : Type ℓ} (m : Act A) : Type ℓ where
  pub at : (t : Tables) (h : Str) → is_stored_in (m t).1.blob_ h ≡ is_stored_in t.blob_ h

Leaves-continue {ℓ κ} :
    {A : Type ℓ} {B : Type κ} (r : Result A × Tables) (f : A → Act B) (h : Str)
    → ((a : A) → Leaves (f a))
    → is_stored_in (continue r f).1.blob_ h ≡ is_stored_in r.1.blob_ h
Leaves-continue (ok a, t) f h k = (k a).at t h
Leaves-continue (err e, t) f h k = refl

pub Leaves-bind {ℓ κ} :
    {A : Type ℓ} {B : Type κ} (m : Act A) (f : A → Act B)
    → Leaves m
    → ((a : A) → Leaves (f a))
    → Leaves (m >>= f)
Leaves-bind m f p k = record { at = λ t h. Leaves-continue (m t) f h k ∙ p.at t h }

pub Leaves-if {ℓ} :
    {A : Type ℓ} (c : Bool) (m n : Act A) → Leaves m → Leaves n → Leaves (if c then m else n)
Leaves-if true m n p q = p
Leaves-if false m n p q = q

pub Leaves-pure {ℓ} : {A : Type ℓ} (a : A) → Leaves (pure a)
Leaves-pure a = record { at = λ t h. refl }

pub Leaves-fail {ℓ} : {A : Type ℓ} (e : Error) → Leaves {A = A} (fail e)
Leaves-fail e = record { at = λ t h. refl }

Leaves-attempt {ℓ} : {A : Type ℓ} (a : Answer) (m : Act A) → Leaves m → Leaves (attempt a m)
Leaves-attempt works m p = p
Leaves-attempt lock_timeout m p = record { at = λ t h. refl }
Leaves-attempt (breaks n) m p = record { at = λ t h. refl }

pub Leaves-once {ℓ} : {A : Type ℓ} (m : Act A) → Leaves m → Leaves (once m)
unfolding once
Leaves-once m p = record {
  at = λ t h.
      (Leaves-attempt (take_answer t.answers).0 m p).at
        (record t { answers = (take_answer t.answers).1 }) h;
}

-- An answer that is not `works`.
data Fault : Type 0 where
  times_out : Fault
  breaks_with : ℕ → Fault

abbrev answer_of : Fault → Answer
answer_of times_out = lock_timeout
answer_of (breaks_with n) = breaks n

abbrev error_of : Fault → Error
error_of times_out = external 1205
error_of (breaks_with n) = external n

Answer-cases : (a : Answer) → (a ≡ works) ⊎ ((x : Fault) × (a ≡ answer_of x))
Answer-cases works = inl refl
Answer-cases lock_timeout = inr (times_out, refl)
Answer-cases (breaks n) = inr (breaks_with n, refl)

attempt-fault :
    (x : Fault) (q : Act ℕ) (t : Tables) → attempt (answer_of x) q t ≡ (err (error_of x), t)
attempt-fault times_out q t = refl
attempt-fault (breaks_with n) q t = refl

-- However often `exec` tries, the statement runs once on the rows as they were, or not at all.
pub exec_loop-cases :
    (retries : ℕ) (q : Act ℕ) (t : Tables)
    → (rest : List Answer) × ((exec_loop retries q t ≡ q (record t { answers = rest }))
        ⊎ ((e : Error) × (exec_loop retries q t ≡ (err e, record t { answers = rest }))))
unfolding exec_loop
exec_loop-cases zero q t = elim (Answer-cases (take_answer t.answers).0) [
  | inl runs ↦ ((take_answer t.answers).1, inl (rw (runs, exec_loop)))
  | inr (x, broken) ↦
      ((take_answer t.answers).1, inr (error_of x, rw (broken, exec_loop, attempt-fault x)))
]
exec_loop-cases (suc r) q t = elim (Answer-cases (take_answer t.answers).0) [
  | inl runs ↦ ((take_answer t.answers).1, inl (rw (runs, exec_loop)))
  | inr (breaks_with n, broken) ↦
      ((take_answer t.answers).1, inr (external n, rw (broken, exec_loop)))
  | inr (times_out, broken) ↦
      rw (broken, exec_loop)
        (exec_loop-cases r q (record t { answers = (take_answer t.answers).1 }))
]

-- The rows of other hashes.
update_blob-others :
    (hash h : Str) (f : BlobRow → BlobRow) (rows : List BlobRow)
    → ((r : BlobRow) → (f r).hash ≡ r.hash)
    → str_eq hash h ≡ false
    → is_stored_in (update_blob hash f rows) h ≡ is_stored_in rows h
unfolding update_blob
update_blob-others hash h f [] k ne = refl
update_blob-others hash h f (r ∷ rows) k ne = ground (
  arith,
  k r,
  update_blob-others hash h f rows k ne,
  str_eq_iff r.hash hash,
  str_eq_iff r.hash h,
  str_eq_iff hash h,
)

pub update_blob-stored :
    (hash h : Str) (f : BlobRow → BlobRow) (rows : List BlobRow) (old : BlobRow)
    → ((r : BlobRow) → ((f r).hash ≡ r.hash) × ((f r).is_stored ≡ true))
    → find_blob hash rows ≡ some old
    → is_stored_in (update_blob hash f rows) h ≡ (str_eq hash h || is_stored_in rows h)
unfolding update_blob find_blob
update_blob-stored hash h f [] old k e = cc
update_blob-stored hash h f (r ∷ rows) old k e = ground (
  arith,
  k r,
  update_blob-stored hash h f rows old k,
  update_blob-others hash h f rows,
  str_eq_iff r.hash hash,
  str_eq_iff r.hash h,
  str_eq_iff hash h,
)

touched-stored :
    (now : ℕ) (ids : List ℕ) (rows : List BlobRow) (h : Str)
    → is_stored_in
        (map
          (λ (r : BlobRow).
            if any (λ i. i == r.id) ids then record r { last_accessed_at = some now } else r)
          rows)
        h
      ≡ is_stored_in rows h
touched-stored now ids [] h = refl
touched-stored now ids (r ∷ rows) h =
    ground (arith, touched-stored now ids rows h, Bool-cases (any (λ i. i == r.id) ids))

blob_touch-stored :
    (now : ℕ) (ids : List ℕ) (t : Tables) (h : Str)
    → is_stored_in (blob_touch now ids t).1.blob_ h ≡ is_stored_in t.blob_ h
unfolding blob_touch
blob_touch-stored now ids t h = touched-stored now ids t.blob_ h

Leaves-exec : (q : Act ℕ) → Leaves q → Leaves (exec q)
unfolding exec
Leaves-exec q p = record {
  at = λ t h.
      let (rest, r) = exec_loop-cases max_attempts q t in
      elim r [
        | inl ran ↦ rw ran (p.at (record t { answers = rest }) h)
        | inr (e, failed) ↦ rw failed refl
      ];
}

Leaves-ignore : (m : Act ℕ) → Leaves m → Leaves (ignore m)
Leaves-ignore m p = Leaves-bind m _ p (λ _. Leaves-pure tt)

Leaves-touch_blobs : (ids : List ℕ) → Leaves (touch_blobs ids)
unfolding touch_blobs
Leaves-touch_blobs [] = Leaves-pure tt
Leaves-touch_blobs (i ∷ ids) = record {
  at = λ t h.
      (Leaves-ignore _ (
          Leaves-exec (blob_touch t.now (i ∷ ids))
            (record { at = blob_touch-stored t.now (i ∷ ids) }))).at
        t h;
}

Leaves-id_of : (o : Option BlobRow) → Leaves (id_of o)
Leaves-id_of none = Leaves-fail _
Leaves-id_of (some r) = Leaves-pure r.id

Leaves-select_blob_id : (hash : Str) → Leaves (select_blob_id hash)
unfolding select_blob_id
Leaves-select_blob_id hash = record { at = λ t h. (Leaves-id_of (find_blob hash t.blob_)).at t h }

pub Leaves-blob_id_by_select : (s : Sql) (hash : Str) → Leaves (blob_id_by_select s hash)
unfolding blob_id_by_select
Leaves-blob_id_by_select s hash = Leaves-bind _ _ (Leaves-once _ (Leaves-select_blob_id hash)) λ id.
    Leaves-if _ _ _ (Leaves-fail _) (
      Leaves-bind _ _
        (Leaves-if _ (touch_blobs (id ∷ [])) (pure tt) (Leaves-touch_blobs (id ∷ []))
          (Leaves-pure tt))
        (λ _. Leaves-pure id))
