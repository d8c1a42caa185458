-- ===== src/Poll/Deadline.antt =====
-- What a wait loop promises, for every behaviour of what it waits for.
use native.Mathlib.Decide.{dec_lt}
use mathlib.Core.Path.{subst, sym}
use mathlib.Core.Option.{some-injective}
use native.Mathlib.Decide.{ℕ_discrete}
use e2e.Base.{
  ◌∙◌, ℕ, zero, suc, ◌+◌, ◌-◌, ◌≤◌, ◌<◌, ◌≡◌, refl, true, false, none, some, arith, Bool-cases,
  Option-cases, inl, inr,
}
use e2e.Poll.{wait, Round, Ended, got, timed_out, died, Pace, poll}

module _ {ℓ} {A : Type ℓ} (pace : Pace) (rounds : ℕ → Round A) where
  -- Round `i`, begun at this time, is followed by round `k`, begun at that time: every round from
  -- `i` up to `k` begins before the deadline, meets a live process and finds nothing.
  pub data Waits : ℕ → ℕ → ℕ → ℕ → Type ℓ where
    here : (i now : ℕ) → Waits i now i now
    later :
        (i now k t : ℕ)
        → now < pace.deadline
        → (rounds i).exited ≡ false
        → (rounds i).found ≡ none
        → Waits (suc i) (now + (rounds i).cost + pace.pause) k t
        → Waits i now k t

  -- What each end of the wait says of the rounds.
  abbrev pub Explains : ℕ → ℕ → Ended A → Type ℓ
  Explains i now (got a t) =
      (k : ℕ) × (start : ℕ) × Waits i now k start
      × (start < pace.deadline)
      × ((rounds k).exited ≡ false)
      × ((rounds k).found ≡ some a)
      × (t ≡ start + (rounds k).cost)
  Explains i now (timed_out t) = (k : ℕ) × Waits i now k t × (pace.deadline ≤ t)
  Explains i now (died t) =
      (k : ℕ) × Waits i now k t × (t < pace.deadline) × ((rounds k).exited ≡ true)

  Explains-later :
      (i now : ℕ) (r : Ended A)
      → now < pace.deadline
      → (rounds i).exited ≡ false
      → (rounds i).found ≡ none
      → Explains (suc i) (now + (rounds i).cost + pace.pause) r
      → Explains i now r
  Explains-later i now (got a t) early alive nothing (k, start, w, a1, a2, a3, a4) =
      (k, start, later i now k start early alive nothing w, a1, a2, a3, a4)
  Explains-later i now (timed_out t) early alive nothing (k, w, a1) =
      (k, later i now k t early alive nothing w, a1)
  Explains-later i now (died t) early alive nothing (k, w, a1, a2) =
      (k, later i now k t early alive nothing w, a1, a2)

  -- One round of the loop that ends it.
  poll_timed_out :
      (fuel i now : ℕ)
      → pace.deadline ≤ now
      → poll (suc fuel) pace rounds i now ≡ some (timed_out now)
  unfolding poll
  poll_timed_out fuel i now h = ground arith

  poll_died :
      (fuel i now : ℕ)
      → now < pace.deadline
      → (rounds i).exited ≡ true
      → poll (suc fuel) pace rounds i now ≡ some (died now)
  unfolding poll
  poll_died fuel i now h e = ground arith

  poll_got :
      (fuel i now : ℕ) (a : A)
      → now < pace.deadline
      → (rounds i).exited ≡ false
      → (rounds i).found ≡ some a
      → poll (suc fuel) pace rounds i now ≡ some (got a (now + (rounds i).cost))
  unfolding poll
  poll_got fuel i now a h e f = ground arith

  poll_later :
      (fuel i now : ℕ)
      → now < pace.deadline
      → (rounds i).exited ≡ false
      → (rounds i).found ≡ none
      → poll (suc fuel) pace rounds i now
        ≡ poll fuel pace rounds (suc i) (now + (rounds i).cost + pace.pause)
  unfolding poll
  poll_later fuel i now h e f = ground arith

  pub poll_explained :
      (fuel i now : ℕ)
      → 0 < pace.pause
      → pace.deadline - now < fuel
      → (r : Ended A) × (poll fuel pace rounds i now ≡ some r) × Explains i now r
  poll_explained zero i now p h = absurd (omega arith)
  poll_explained (suc fuel) i now p h = elim (dec_lt now pace.deadline) [
    | no late ↦
        (timed_out now, poll_timed_out fuel i now (omega arith), (i, here i now, omega arith))
    | yes early ↦ elim (Bool-cases (rounds i).exited) [
      | inl dead ↦ (died now, poll_died fuel i now early dead, (i, here i now, early, dead))
      | inr alive ↦ elim (Option-cases (rounds i).found) [
        | inr (a, e) ↦ (
          got a (now + (rounds i).cost),
          poll_got fuel i now a early alive e,
          (i, now, here i now, early, alive, e, refl),
        )
        | inl nothing ↦
            let (r, e, x) =
              poll_explained fuel (suc i) (now + (rounds i).cost + pace.pause) p (omega arith) in
            (
              r,
              poll_later fuel i now early alive nothing ∙ e,
              Explains-later i now r early alive nothing x,
            )
      ]
    ]
  ]

-- A wait always ends, and how it ends says what its rounds met: it returns what the first round to
-- find something found, it fails as soon as a round meets a dead process, and it times out only
-- when every round that began before the deadline found nothing.
pub wait_explained {ℓ} :
    {A : Type ℓ} (timeout pause : ℕ) (rounds : ℕ → Round A)
    → 0 < pause
    → (r : Ended A) × (wait timeout pause rounds ≡ some r)
      × Explains (record { deadline = timeout; pause = pause }) rounds 0 0 r
unfolding wait
wait_explained timeout pause rounds h =
    poll_explained (record { deadline = timeout; pause = pause }) rounds (timeout + 1) 0 0 h
      (omega arith)

-- What the rounds before round `k` met.
abbrev pub Quiet {ℓ} : {A : Type ℓ} → (ℕ → Round A) → ℕ → Type ℓ
Quiet rounds k = (j : ℕ) → j < k → ((rounds j).exited ≡ false) × ((rounds j).found ≡ none)

pub Waits-Quiet {ℓ} :
    {A : Type ℓ} (pace : Pace) (rounds : ℕ → Round A) {i now k t : ℕ}
    → Waits pace rounds i now k t
    → (j : ℕ) → i ≤ j
    → j < k
    → ((rounds j).exited ≡ false) × ((rounds j).found ≡ none)
Waits-Quiet pace rounds (here i now) j low high = absurd (omega arith)
Waits-Quiet pace rounds (later i now k t early alive nothing w) j low high = elim (ℕ_discrete i j) [
  | yes e ↦ rw (← e) (alive, nothing)
  | no n ↦ Waits-Quiet pace rounds w j (omega arith) high
]

-- The time at which round `k` begins, after the rounds and the pauses before it.
abbrev pub begins : (ℕ → ℕ) → ℕ → ℕ → ℕ
begins cost pause zero = 0
begins cost pause (suc k) = begins cost pause k + cost k + pause

module _ {ℓ} {A : Type ℓ} (pace : Pace) (rounds : ℕ → Round A) where
  -- The time of a round in a run is that of its number.
  pub Waits-begins :
      {i now k t : ℕ}
      → Waits pace rounds i now k t
      → now ≡ begins (λ j. (rounds j).cost) pace.pause i
      → t ≡ begins (λ j. (rounds j).cost) pace.pause k
  Waits-begins (here i now) e = e
  Waits-begins (later i now k t early alive nothing w) e = Waits-begins w (omega (arith, e))

  pub Waits-early :
      {i now k t : ℕ}
      → Waits pace rounds i now k t
      → now ≡ begins (λ j. (rounds j).cost) pace.pause i
      → (j : ℕ) → i ≤ j
      → j < k
      → begins (λ j. (rounds j).cost) pace.pause j < pace.deadline
  Waits-early (here i now) e j low high = absurd (omega arith)
  Waits-early (later i now k t early alive nothing w) e j low high = elim (ℕ_discrete i j) [
    | yes same ↦ rw (← same, ← e) early
    | no n ↦ Waits-early w (omega (arith, e)) j (omega arith) high
  ]

-- The three ends of a wait, in terms of its rounds and of the times at which they begin: round `k` is
-- the last one if the wait returns or the process has exited, and the one that comes too late if not.
abbrev pub EndsBy {ℓ} : {A : Type ℓ} → ℕ → ℕ → (ℕ → Round A) → Ended A → Type ℓ
EndsBy timeout pause rounds (got a t) =
    (k : ℕ) × ((rounds k).exited ≡ false)
    × ((rounds k).found ≡ some a)
    × Quiet rounds k
    × (begins (λ j. (rounds j).cost) pause k < timeout)
    × (t ≡ begins (λ j. (rounds j).cost) pause k + (rounds k).cost)
EndsBy timeout pause rounds (timed_out t) =
    (k : ℕ) × (t ≡ begins (λ j. (rounds j).cost) pause k)
    × (timeout ≤ t)
    × Quiet rounds k
    × ((j : ℕ) → j < k → begins (λ j. (rounds j).cost) pause j < timeout)
EndsBy timeout pause rounds (died t) =
    (k : ℕ) × (t ≡ begins (λ j. (rounds j).cost) pause k)
    × (t < timeout)
    × ((rounds k).exited ≡ true)
    × Quiet rounds k

Explains-EndsBy {ℓ} :
    {A : Type ℓ} (pace : Pace) (rounds : ℕ → Round A) (r : Ended A)
    → Explains pace rounds 0 0 r
    → EndsBy pace.deadline pace.pause rounds r
Explains-EndsBy pace rounds (got a t) (k, start, w, early, alive, found, at) =
    let start_is = Waits-begins pace rounds w refl in
    (
      k,
      alive,
      found,
      λ j h. Waits-Quiet pace rounds w j (omega arith) h,
      omega (arith, early, start_is),
      omega (arith, at, start_is),
    )
Explains-EndsBy pace rounds (timed_out t) (k, w, late) = (
  k,
  Waits-begins pace rounds w refl,
  late,
  λ j h. Waits-Quiet pace rounds w j (omega arith) h,
  λ j h. Waits-early pace rounds w refl j (omega arith) h,
)
Explains-EndsBy pace rounds (died t) (k, w, early, dead) = (
  k,
  Waits-begins pace rounds w refl,
  early,
  dead,
  λ j h. Waits-Quiet pace rounds w j (omega arith) h,
)

pub wait_ends {ℓ} :
    {A : Type ℓ} (timeout pause : ℕ) (rounds : ℕ → Round A)
    → 0 < pause
    → (r : Ended A) × (wait timeout pause rounds ≡ some r) × EndsBy timeout pause rounds r
wait_ends timeout pause rounds h =
    let (r, e, x) = wait_explained timeout pause rounds h in
    (r, e, Explains-EndsBy (record { deadline = timeout; pause = pause }) rounds r x)

-- A wait that returned, seen from its result.
pub wait_got {ℓ} :
    {A : Type ℓ} (timeout pause : ℕ) (rounds : ℕ → Round A) (a : A) (t : ℕ)
    → 0 < pause
    → wait timeout pause rounds ≡ some (got a t)
    → (k : ℕ) × ((rounds k).exited ≡ false) × ((rounds k).found ≡ some a) × Quiet rounds k
wait_got timeout pause rounds a t h e =
    let (r, f, x) = wait_ends timeout pause rounds h in
    let (k, alive, found, quiet, _, _) =
      subst (EndsBy timeout pause rounds) (some-injective r (got a t) (sym f ∙ e)) x in
    (k, alive, found, quiet)
