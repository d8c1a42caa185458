-- ===== src/Poll/Bounds.antt =====
-- How many rounds a wait has, and how late it ends.
use e2e.Base.{ℕ, zero, suc, ◌+◌, ◌*◌, ◌≤◌, ◌<◌, ◌≡◌, true, ◌⊎◌, inl, inr, some, arith}
use e2e.Poll.{wait, Round, Ended, got, timed_out, died}
use e2e.Poll.Deadline.{begins, EndsBy, wait_ends}

suc-mul : (n p : ℕ) → suc n * p ≡ p + n * p
suc-mul n p = omega arith

-- Round `k` begins before the deadline, and so few rounds come before it that their pauses fit in the
-- timeout.
abbrev pub IsInTime {ℓ} : {A : Type ℓ} → ℕ → ℕ → (ℕ → Round A) → ℕ → Type 0
IsInTime timeout pause rounds k =
    (begins (λ j. (rounds j).cost) pause k < timeout) × (k * pause < timeout)

-- The last round of a wait is in time. A wait that returns ends with that round, which has found what
-- is returned; a wait that times out ends one pause after it, at the deadline or later; and a wait for
-- a process that has exited ends at once when that round sees it. A wait of no time has no round.
abbrev pub IsTimely : {A : Type 0} → ℕ → ℕ → (ℕ → Round A) → Ended A → Type 0
IsTimely timeout pause rounds (got a t) =
    (k : ℕ) × IsInTime timeout pause rounds k
    × ((rounds k).found ≡ some a)
    × (t ≡ begins (λ j. (rounds j).cost) pause k + (rounds k).cost)
IsTimely timeout pause rounds (timed_out t) =
    ((timeout ≡ 0) × (t ≡ 0))
    ⊎ ((k : ℕ) × IsInTime timeout pause rounds k
        × (timeout ≤ t)
        × (t ≡ begins (λ j. (rounds j).cost) pause k + (rounds k).cost + pause))
IsTimely timeout pause rounds (died t) =
    (k : ℕ) × IsInTime timeout pause rounds k
    × ((rounds k).exited ≡ true)
    × (t ≡ begins (λ j. (rounds j).cost) pause k)

begins-long : (cost : ℕ → ℕ) (pause k : ℕ) → k * pause ≤ begins cost pause k
begins-long cost pause zero = omega arith
begins-long cost pause (suc k) = omega (arith, begins-long cost pause k, suc-mul k pause)

module _ {A : Type 0} (timeout pause : ℕ) (rounds : ℕ → Round A) where
  in_time :
      (k : ℕ) → begins (λ j. (rounds j).cost) pause k < timeout → IsInTime timeout pause rounds k
  in_time k early = (early, omega (arith, early, begins-long (λ j. (rounds j).cost) pause k))

  -- When no round is in time, the timeout is none.
  timed_out-IsTimely :
      (t k : ℕ)
      → t ≡ begins (λ j. (rounds j).cost) pause k
      → timeout ≤ t
      → ((j : ℕ) → j < k → begins (λ j. (rounds j).cost) pause j < timeout)
      → IsTimely timeout pause rounds (timed_out t)
  timed_out-IsTimely t zero at late early = inl (omega (arith, at, late), at)
  timed_out-IsTimely t (suc k) at late early = inr (k, in_time k (early k (omega arith)), late, at)

  EndsBy-IsTimely : (r : Ended A) → EndsBy timeout pause rounds r → IsTimely timeout pause rounds r
  EndsBy-IsTimely (got a t) (k, alive, found, quiet, early, at) = (k, in_time k early, found, at)
  EndsBy-IsTimely (timed_out t) (k, at, late, quiet, early) = timed_out-IsTimely t k at late early
  EndsBy-IsTimely (died t) (k, at, early, dead, quiet) =
      (k, in_time k (omega (arith, early, at)), dead, at)

-- Every wait ends in time: its last round begins before the deadline, and so few rounds come before it
-- that their pauses fit in the timeout. It ends with that round, which has found what is returned, if
-- it returns; one pause after that round, at the deadline or later, if it times out; and at the
-- beginning of that round if the process has exited by then. A wait of no time ends at once.
pub wait-IsTimely :
    {A : Type 0} (timeout pause : ℕ) (rounds : ℕ → Round A)
    → 0 < pause
    → (r : Ended A) × (wait timeout pause rounds ≡ some r) × IsTimely timeout pause rounds r
wait-IsTimely timeout pause rounds h =
    let (r, e, x) = wait_ends timeout pause rounds h in
    (r, e, EndsBy-IsTimely timeout pause rounds r x)
