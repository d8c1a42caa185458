-- ===== src/Waits/Patience.antt =====
-- internal/harness/node.go: the wait for a node that becomes ready succeeds.
use native.Mathlib.Decide.{dec_lt}
use e2e.Base.{ℕ, suc, ◌+◌, ◌*◌, ◌≤◌, ◌<◌, ◌≡◌, Bool, false, some, arith}
use e2e.Poll.{wait, Round, Ended, got, timed_out, died, Pace}
use e2e.Poll.Deadline.{Waits, here, later, Explains, wait_explained, Waits-Quiet}
use e2e.Waits.{Probe, Reply, healthy, wait_healthy}

-- What the rounds of `waitHealthy` meet.
abbrev node_rounds : (ℕ → Bool) → (ℕ → Probe Reply) → ℕ → Round (Unit {0})
node_rounds exited get i = record {
  exited = exited i;
  found = healthy (get i).answer;
  cost = (get i).took;
}

abbrev pace : Pace
pace = record { deadline = 90 * 1000; pause = 200 }

-- No round took more than the client's timeout and a pause.
Waits-short :
    (exited : ℕ → Bool) (get : ℕ → Probe Reply)
    → ((i : ℕ) → (get i).took ≤ 2000)
    → {i now k t : ℕ} → Waits pace (node_rounds exited get) i now k t
    → (n : ℕ) × (k ≡ i + n) × (t ≤ now + n * 2200)
Waits-short exited get quick (here i now) = (0, omega arith, omega arith)
Waits-short exited get quick (later i now k t early alive nothing w) =
    let (n, k_is, short) = Waits-short exited get quick w in
    (suc n, omega (arith, k_is), omega (arith, short, quick i))

-- A node process that stays alive and answers 200 to some request is reported ready, if every
-- request ends within the client's timeout of two seconds and so few requests come before that one
-- that they fit in the ninety seconds, with their pauses.
pub wait_healthy_patient :
    (exited : ℕ → Bool) (get : ℕ → Probe Reply) (k : ℕ)
    → ((i : ℕ) → exited i ≡ false)
    → ((i : ℕ) → (get i).took ≤ 2000)
    → healthy (get k).answer ≡ some tt
    → k * 2200 < 90000
    → (t : ℕ) × (wait_healthy exited get ≡ some (got tt t))
unfolding wait_healthy
wait_healthy_patient exited get k alive quick ok soon =
    let (r, e, x) = wait_explained (90 * 1000) 200 (node_rounds exited get) (omega arith) in
    ends r e x
  where
    ends :
        (r : Ended (Unit {0}))
        → wait (90 * 1000) 200 (node_rounds exited get) ≡ some r
        → Explains pace (node_rounds exited get) 0 0 r
        → (t : ℕ) × (wait (90 * 1000) 200 (node_rounds exited get) ≡ some (got tt t))
    ends (got tt t) e x = (t, e)
    ends (died t) e (m, w, early, dead) = absurd (ground (arith, alive m, dead))
    ends (timed_out t) e (m, w, late) =
        let (n, m_is, short) = Waits-short exited get quick w in
        elim (dec_lt k m) [
          | yes before ↦ absurd (
              ground
                (arith, ok, (Waits-Quiet pace (node_rounds exited get) w k (omega arith) before).1))
          | no late_enough ↦ absurd (omega (arith, soon, late_enough, m_is, short, late))
        ]
