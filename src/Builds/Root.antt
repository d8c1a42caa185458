-- ===== src/Builds/Root.antt =====
-- internal/harness/node.go: `repoRoot` ends at the nearest directory with a go.mod.
use e2e.Base.{
  ℕ, zero, suc, ◌+◌, ◌<◌, ◌≡◌, ◌≢◌, refl, ap, sym, ◌∙◌, arith, ◌⊎◌, inl, inr, Bool, true, false,
  Bool-cases, Option-cases, none, some, [], ◌∷◌, Text, lit, text_eq, length,
}
use e2e.Run.{Outcome, done, fatal}
use e2e.Builds.{cut_last, parent_of, Toolchain, RootFault, no_cwd, no_root, climb, repo_root}

length-cut_last : (c : ℕ) (s : Text) → length (cut_last (c ∷ s)) < length (c ∷ s)
unfolding cut_last
length-cut_last c [] = ground arith
length-cut_last c (d ∷ s) = ground (arith, length-cut_last d s)

-- The directory that is this many levels up.
unfoldable pub ancestor : ℕ → Text → Text
ancestor zero dir = dir
ancestor (suc k) dir = ancestor k (parent_of dir)

-- The loop ends at a directory with a go.mod below which there is none, or at the top without one.
abbrev pub Climbs : (Text → Bool) → Text → Outcome RootFault Text → Type 0
Climbs has_go_mod dir r =
    (k : ℕ) × ((j : ℕ) → j < k → has_go_mod (ancestor j dir) ≡ false)
    × (((has_go_mod (ancestor k dir) ≡ true) × (r ≡ done (ancestor k dir)))
        ⊎ ((has_go_mod (ancestor k dir) ≡ false)
            × (parent_of (ancestor k dir) ≡ ancestor k dir)
            × (r ≡ fatal no_root)))

parent_cases : (dir : Text) → (parent_of dir ≡ lit "/") ⊎ (length (parent_of dir) < length dir)
unfolding parent_of cut_last
parent_cases [] = inl refl
parent_cases (c ∷ s) = shorter c s (cut_last (c ∷ s)) (length-cut_last c s)
  where
    shorter :
        (c : ℕ) (s front : Text)
        → length front < length (c ∷ s)
        → ((elim front as (λ _. Text) [ [] ↦ lit "/" | d ∷ t ↦ d ∷ t ]) ≡ lit "/")
          ⊎ (length (elim front as (λ _. Text) [ [] ↦ lit "/" | d ∷ t ↦ d ∷ t ]) < length (c ∷ s))
    shorter c s [] h = inl refl
    shorter c s (d ∷ t) h = inr h

top_parent : parent_of (lit "/") ≡ lit "/"
unfolding parent_of cut_last lit
top_parent = refl

-- From a directory that is not the top there is fuel for its parent.
goes_on :
    (dir : Text) (fuel : ℕ)
    → (dir ≡ lit "/") ⊎ (length dir + 1 < suc fuel)
    → parent_of dir ≢ dir
    → ((parent_of dir ≡ lit "/") ⊎ (length (parent_of dir) + 1 < fuel)) × (0 < fuel)
goes_on dir fuel (inl top) apart = absurd (apart (ap parent_of top ∙ (top_parent ∙ sym top)))
goes_on dir fuel (inr enough) apart = elim (parent_cases dir) [
  | inl root ↦ (inl root, omega arith)
  | inr less ↦ (inr (omega arith), omega arith)
]

module _ (has_go_mod : Text → Bool) where
  Climbs-here : (dir : Text) → has_go_mod dir ≡ true → Climbs has_go_mod dir (done dir)
  unfolding ancestor
  Climbs-here dir there = (0, λ j low. absurd (omega arith), inl (there, refl))

  Climbs-top :
      (dir : Text)
      → has_go_mod dir ≡ false
      → parent_of dir ≡ dir
      → Climbs has_go_mod dir (fatal no_root)
  unfolding ancestor
  Climbs-top dir missing top = (0, λ j low. absurd (omega arith), inr (missing, top, refl))

  Climbs-up :
      (dir : Text) (r : Outcome RootFault Text)
      → has_go_mod dir ≡ false
      → Climbs has_go_mod (parent_of dir) r
      → Climbs has_go_mod dir r
  unfolding ancestor
  Climbs-up dir r missing (k, below, ends) = (suc k, under, ends)
    where
      under : (j : ℕ) → j < suc k → has_go_mod (ancestor j dir) ≡ false
      under zero low = missing
      under (suc j) low = below j (omega arith)

  climb_step :
      (fuel : ℕ) (dir : Text)
      → has_go_mod dir ≡ false
      → parent_of dir ≢ dir
      → climb has_go_mod (suc fuel) dir ≡ climb has_go_mod fuel (parent_of dir)
  unfolding climb
  climb_step fuel dir missing apart = ground (arith, missing, apart)

  climb_end :
      (fuel : ℕ) (dir : Text)
      → (has_go_mod dir ≡ true) ⊎ (parent_of dir ≡ dir)
      → (r : Outcome RootFault Text) × (climb has_go_mod (suc fuel) dir ≡ some r)
        × Climbs has_go_mod dir r
  unfolding climb
  climb_end fuel dir ends = elim (Bool-cases (has_go_mod dir)) [
    | inl there ↦ (done dir, ground (arith, there), Climbs-here dir there)
    | inr missing ↦ elim ends [
      | inl there ↦ absurd (ground (arith, there, missing))
      | inr top ↦ (fatal no_root, ground (arith, missing, top), Climbs-top dir missing top)
    ]
  ]

  climb_ends :
      (fuel : ℕ) (dir : Text)
      → (dir ≡ lit "/") ⊎ (length dir + 1 < fuel)
      → 0 < fuel
      → (r : Outcome RootFault Text) × (climb has_go_mod fuel dir ≡ some r)
        × Climbs has_go_mod dir r
  climb_ends zero dir enough some_fuel = absurd (omega arith)
  climb_ends (suc fuel) dir enough some_fuel = elim (Bool-cases (has_go_mod dir)) [
    | inl there ↦ climb_end fuel dir (inl there)
    | inr missing ↦ elim (text_eq.dec (parent_of dir) dir) [
      | yes top ↦ climb_end fuel dir (inr top)
      | no apart ↦
          let (smaller, fueled) = goes_on dir fuel enough apart in
          let (r, e, x) = climb_ends fuel (parent_of dir) smaller fueled in
          (r, climb_step fuel dir missing apart ∙ e, Climbs-up dir r missing x)
    ]
  ]

-- `repoRoot` always ends: at the nearest directory from the working directory upwards that has a
-- go.mod, or with a failure if there is no working directory or none of its ancestors up to the top
-- has one.
pub repo_root_ends :
    (tools : Toolchain)
    → (r : Outcome RootFault Text) × (repo_root tools ≡ some r)
      × (((tools.getwd ≡ none) × (r ≡ fatal no_cwd))
          ⊎ ((dir : Text) × (tools.getwd ≡ some dir) × Climbs tools.has_go_mod dir r))
unfolding repo_root
repo_root_ends tools = elim (Option-cases tools.getwd) [
  | inl nowhere ↦ (fatal no_cwd, ground (arith, nowhere), inl (nowhere, refl))
  | inr (dir, cwd) ↦
      let (r, e, x) =
        climb_ends tools.has_go_mod (length dir + 2) dir (inr (omega arith)) (omega arith) in
      (r, rw (cwd) e, inr (dir, cwd, x))
]
