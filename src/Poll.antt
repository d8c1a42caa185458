-- ===== src/Poll.antt =====
-- The wait loops of the harness: `for time.Now().Before(deadline) { … time.Sleep(pause) }`. Times
-- are in milliseconds. What each round meets, and how long it takes, is the environment's.
pub mod Deadline
pub mod Bounds
use e2e.Base.{ℕ, zero, suc, ◌+◌, Bool, Option, none, some, ltb, if◌then◌else◌}

-- One round: whether the watched process has exited, what the probe found, and the time it took.
pub record Round {ℓ} (A : Type ℓ) : Type ℓ where
  pub exited : Bool
  pub found : Option A
  pub cost : ℕ

-- How a wait ends, and when. `timed_out` and `died` are the calls of `t.Fatalf`.
pub data Ended {ℓ} (A : Type ℓ) : Type ℓ where
  got : A → ℕ → Ended A
  timed_out : ℕ → Ended A
  died : ℕ → Ended A

-- The deadline and the pause between two rounds.
pub record Pace : Type 0 where
  pub deadline : ℕ
  pub pause : ℕ

-- `rounds i` is what round `i` meets. `none` means that the fuel ran out.
unfoldable pub poll {ℓ} : {A : Type ℓ} → ℕ → Pace → (ℕ → Round A) → ℕ → ℕ → Option (Ended A)
poll zero pace rounds i now = none
poll (suc fuel) pace rounds i now =
    let next = poll fuel pace rounds (suc i) (now + (rounds i).cost + pace.pause) in
    if ltb now pace.deadline
    then (if (rounds i).exited
        then some (died now)
        else elim (rounds i).found [ some a ↦ some (got a (now + (rounds i).cost)) | none ↦ next ])
    else some (timed_out now)

-- A wait of `timeout` from time 0. Every pause is at least a millisecond, so a round for each
-- millisecond and one more are enough.
unfoldable pub wait {ℓ} : {A : Type ℓ} → ℕ → ℕ → (ℕ → Round A) → Option (Ended A)
unfolding poll
wait timeout pause rounds =
    poll (timeout + 1) (record { deadline = timeout; pause = pause }) rounds 0 0
