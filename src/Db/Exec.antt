-- ===== src/Db/Exec.antt =====
-- db/db.go: `exec`, with its retries, plain queries, and the sequencing of calls that may fail. What
-- was written before an error stays written: the program uses no transaction here.
pub mod Retries
use reflector_go.Db.Tables.{Tables, Answer, works, lock_timeout, breaks}
use reflector_go.Errors.{Error, Result, ok, err, external}
use reflector_go.Prelude.{List, ℕ, ◌∷◌, suc, [], zero, Bool, if◌then◌else◌}

-- A call on the database.
abbrev pub Act {ℓ} : Type ℓ → Type ℓ
Act A = Tables → Result A × Tables

abbrev pub pure {ℓ} : {A : Type ℓ} → A → Act A
pure a t = (ok a, t)

abbrev pub fail {ℓ} : {A : Type ℓ} → Error → Act A
fail e t = (err e, t)

abbrev pub continue {ℓ κ} :
    {A : Type ℓ} {B : Type κ} → Result A × Tables → (A → Act B) → Result B × Tables
continue (ok a, t) f = f a t
continue (err e, t) f = (err e, t)

infixl 5 ◌>>=◌ ◌>>◌
abbrev pub ◌>>=◌ {ℓ κ} : {A : Type ℓ} {B : Type κ} → Act A → (A → Act B) → Act B
◌>>=◌ m f t = continue (m t) f

abbrev pub ◌>>◌ {ℓ κ} : {A : Type ℓ} {B : Type κ} → Act A → Act B → Act B
m >> k = m >>= λ _. k

abbrev pub guard : Bool → Error → Act (Unit {0})
guard c e t = (if c then ok tt else err e, t)

-- The server's next answer.
abbrev pub take_answer : List Answer → Answer × List Answer
take_answer [] = (works, [])
take_answer (a ∷ rest) = (a, rest)

-- One try of a statement. A statement that times out or fails has no effect.
abbrev pub attempt {ℓ} : {A : Type ℓ} → Answer → Act A → Act A
attempt works q t = q t
attempt lock_timeout q t = (err (external 1205), t)
attempt (breaks n) q t = (err (external n), t)

-- `s.conn.Query`, `s.conn.QueryRow` and `s.conn.Exec`
unfoldable pub once {ℓ} : {A : Type ℓ} → Act A → Act A
once q t = let (a, rest) = take_answer t.answers in attempt a q (record t { answers = rest })

-- The loop of `exec`, where `retries` is how often `attempt <= maxAttempts` still holds after a
-- try: `maxAttempts` times, since `attempt` is 1 after the first.
unfoldable pub exec_loop : ℕ → Act ℕ → Act ℕ
exec_loop zero q t =
    let (a, rest) = take_answer t.answers in attempt a q (record t { answers = rest })
exec_loop (suc retries) q t =
    let (a, rest) = take_answer t.answers in
    let t' = record t { answers = rest } in
    elim a [
      | works ↦ attempt works q t'
      | lock_timeout ↦ exec_loop retries q t'
      | breaks n ↦ attempt (breaks n) q t'
    ]

abbrev pub max_attempts : ℕ
max_attempts = 3

-- `exec`; the number is that of `LastInsertId`.
unfoldable pub exec : Act ℕ → Act ℕ
exec q = exec_loop max_attempts q
