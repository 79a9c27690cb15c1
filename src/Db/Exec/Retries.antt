-- ===== src/Db/Exec/Retries.antt =====
-- What `exec` makes of lock timeouts.
use reflector_go.Db.Tables.{Tables, Answer, works, lock_timeout}
use reflector_go.Db.Exec.{Act, exec, exec_loop, max_attempts, err, external}
use reflector_go.Prelude.{arith, refl, ℕ, List, suc, ◌≡◌, ◌∷◌, if◌then◌else◌, zero, leb, ◌-◌}

pub timeouts : ℕ → List Answer → List Answer
timeouts zero rest = rest
timeouts (suc n) rest = lock_timeout ∷ timeouts n rest

exec_loop_after :
    (retries n : ℕ) (q : Act ℕ) (t : Tables) (rest : List Answer)
    → t.answers ≡ timeouts n (works ∷ rest)
    → exec_loop retries q t ≡ (
        if leb n retries then q (record t { answers = rest }) else (
          err (external 1205),
          record t { answers = timeouts (n - suc retries) (works ∷ rest) },
        ))
unfolding exec_loop timeouts
exec_loop_after zero zero q t rest e = rw e
exec_loop_after zero (suc n) q t rest e = rw e (ground arith)
exec_loop_after (suc r) zero q t rest e = rw e (ground arith)
exec_loop_after (suc r) (suc n) q t rest e = rw e (
    ground
      (arith, exec_loop_after r n q (record t { answers = timeouts n (works ∷ rest) }) rest refl))

-- `exec` survives up to three lock timeouts in a row: the statement then runs once, with the effect
-- and the error or the number that it has by itself. A fourth timeout is reported as error 1205, and
-- the statement has not run at all.
pub exec_after_timeouts :
    (n : ℕ) (q : Act ℕ) (t : Tables) (rest : List Answer)
    → t.answers ≡ timeouts n (works ∷ rest)
    → exec q t ≡ (
        if leb n max_attempts
        then q (record t { answers = rest })
        else (err (external 1205), record t { answers = timeouts (n - 4) (works ∷ rest) }))
unfolding exec
exec_after_timeouts n q t rest e = exec_loop_after 3 n q t rest e
