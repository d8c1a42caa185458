-- ===== src/Findings/Parity.antt =====
-- internal/harness/parity_test.go: when `TestComposeParity` passes.
use e2e.Base.{
  ℕ, zero, suc, ◌≡◌, ◌↔◌, refl, ap, ap₂, ◌∙◌, arith, ◌⊎◌, inl, inr, Bool, Bool-cases, true, false,
  Option, Option-cases, none, some, List, [], ◌∷◌, ◌++◌, Text, lit, Any, All,
}
use e2e.Base.Maps.{Map, lookup}
use e2e.Run.{Outcome, done, fatal}
use e2e.Disk.{join}
use e2e.Builds.{Toolchain, RootFault, repo_root}
use e2e.Findings.Licences.Blocks.{LastLicence, open_compose_deferrals_iff}
use e2e.Findings.{
  DirEntry, Checkout, ParityError, judge, twin_of, check_entries, conclude, parity_of, parity_from,
  compose_parity, blocks_of, open_compose_deferrals,
}

-- The scenario has a twin, or a finding that defers it, and not both.
abbrev pub IsSettled : Bool → Option Text → Type 0
IsSettled has_twin deferral =
    ((has_twin ≡ true) × (deferral ≡ none))
    ⊎ ((has_twin ≡ false) × ((id : Text) × (deferral ≡ some id)))

judge-nil : (name : Text) (b : Bool) (o : Option Text) → (judge name b o ≡ []) ↔ IsSettled b o
unfolding judge
judge-nil name true none = ground arith
judge-nil name false none = ground arith
judge-nil name true (some id) = ground arith
judge-nil name false (some id) = (λ _. inr (refl, (id, refl)), λ _. refl)

append-nil_iff : {A : Type 0} (xs ys : List A) → (xs ++ ys ≡ []) ↔ ((xs ≡ []) × (ys ≡ []))
append-nil_iff [] ys = ground arith
append-nil_iff (x ∷ xs) ys = ground arith

module _ (checkout : Checkout) (root : Text) (deferred : Map Text) where
  -- Every directory is settled.
  abbrev pub AllSettled : List DirEntry → Type 0
  AllSettled = All (λ e.
      e.is_dir ≡ true → IsSettled (checkout.exists (twin_of root e.name)) (lookup e.name deferred))

  check_entries-errors :
      (entries : List DirEntry)
      → ((check_entries checkout root deferred entries).0 ≡ []) ↔ AllSettled entries
  unfolding check_entries
  check_entries-errors [] = ground arith
  check_entries-errors (e ∷ entries) =
      let name = e.name in
      let here = judge-nil name (checkout.exists (twin_of root name)) (lookup name deferred) in
      let both =
        append-nil_iff (judge name (checkout.exists (twin_of root name)) (lookup name deferred))
          (check_entries checkout root deferred entries).0 in
      ground (arith, check_entries-errors entries, here, both)

  check_entries-count :
      (entries : List DirEntry)
      → ((n : ℕ) × ((check_entries checkout root deferred entries).1 ≡ suc n))
        ↔ Any (λ e. e.is_dir ≡ true) entries
  unfolding check_entries
  check_entries-count [] = ground arith
  check_entries-count (e ∷ entries) = elim (Bool-cases e.is_dir) [
    | inl dir ↦ (
      λ _. inl dir,
      λ _. ((check_entries checkout root deferred entries).1, rw dir (omega arith)),
    )
    | inr file ↦ ground (arith, file, check_entries-count entries)
  ]

  conclude-nil :
      (r : List ParityError × ℕ)
      → (conclude checkout root deferred r ≡ done []) ↔ ((r.0 ≡ []) × ((n : ℕ) × (r.1 ≡ suc n)))
  unfolding conclude
  conclude-nil (errors, zero) = ground arith
  conclude-nil (errors, suc n) = (λ e. (cc e, (n, refl)), λ h. ap done h.0)

  concludes :
      (entries : List DirEntry)
      → (conclude checkout root deferred (check_entries checkout root deferred entries) ≡ done [])
        ↔ (AllSettled entries × Any (λ e. e.is_dir ≡ true) entries)
  concludes entries =
      let ends = conclude-nil (check_entries checkout root deferred entries) in
      let errors = check_entries-errors entries in
      let count = check_entries-count entries in
      (
        λ e. let (none_wrong, some_seen) = ends.0 e in (errors.0 none_wrong, count.0 some_seen),
        λ h. ends.1 (errors.1 h.0, count.1 h.1),
      )

-- The scenario has a twin and no block of the register licenses its lack, or it has none and a block does.
abbrev pub IsTwinned : Text → Text → Bool → Type 0
IsTwinned md name has_twin =
    ((has_twin ≡ true) × ((id : Text) → ¬ LastLicence name id (blocks_of md)))
    ⊎ ((has_twin ≡ false) × ((id : Text) × LastLicence name id (blocks_of md)))

IsTwinned-IsSettled :
    (md name : Text) (b : Bool)
    → IsSettled b (lookup name (open_compose_deferrals md)) ↔ IsTwinned md name b
IsTwinned-IsSettled md name b = elim (Option-cases (lookup name (open_compose_deferrals md))) [
  | inl missing ↦ (
    λ h. elim h [
      | inl (twin, _) ↦ inl (
        twin,
        λ id last. absurd (ground (arith, missing, (open_compose_deferrals_iff name md id).1 last)),
      )
      | inr (_, (id, found)) ↦ absurd (ground (arith, missing, found))
    ],
    λ h. elim h [
      | inl (twin, _) ↦ inl (twin, missing)
      | inr (bare, (id, last)) ↦ inr (bare, (id, (open_compose_deferrals_iff name md id).1 last))
    ],
  )
  | inr (id, found) ↦ (
    λ h. elim h [
      | inl (_, missing) ↦ absurd (ground (arith, missing, found))
      | inr (bare, _) ↦ inr (bare, (id, (open_compose_deferrals_iff name md id).0 found))
    ],
    λ h. elim h [
      | inl (_, never) ↦ absurd (never id ((open_compose_deferrals_iff name md id).0 found))
      | inr (bare, _) ↦ inr (bare, (id, found))
    ],
  )
]

-- What a checkout at parity is: a register and a scenarios directory under the repository's root, with
-- a scenario at least, all of them twinned or deferred and not both.
pub record IsAtParity (tools : Toolchain) (checkout : Checkout) : Type 0 where
  pub root : Text
  pub md : Text
  pub entries : List DirEntry
  pub rooted : repo_root tools ≡ some (done root)
  pub register : checkout.read (join root (lit "FINDINGS.md")) ≡ some md
  pub scenarios : checkout.read_dir (join root (lit "scenarios")) ≡ some entries
  pub twinned :
      All
        (λ e. e.is_dir ≡ true → IsTwinned md e.name (checkout.exists (twin_of root e.name)))
        entries
  pub populated : Any (λ e. e.is_dir ≡ true) entries

All-iff :
    {A : Type 0} (P Q : A → Type 0) (xs : List A) → ((a : A) → P a ↔ Q a) → All P xs ↔ All Q xs
All-iff P Q [] h = ground arith
All-iff P Q (x ∷ xs) h = ground (arith, All-iff P Q xs h, h x)

module _ (tools : Toolchain) (checkout : Checkout) where
  IsTwinned-iff :
      (root md : Text) (entries : List DirEntry)
      → AllSettled checkout root (open_compose_deferrals md) entries
        ↔ All
            (λ e. e.is_dir ≡ true → IsTwinned md e.name (checkout.exists (twin_of root e.name)))
            entries
  IsTwinned-iff root md entries = All-iff _ _ entries (λ e.
      let both = IsTwinned-IsSettled md e.name (checkout.exists (twin_of root e.name)) in
      (λ h dir. both.0 (h dir), λ h dir. both.1 (h dir)))

  parity_of-done :
      (root : Text) (register : Option Text) (listing : Option (List DirEntry))
      → repo_root tools ≡ some (done root)
      → checkout.read (join root (lit "FINDINGS.md")) ≡ register
      → checkout.read_dir (join root (lit "scenarios")) ≡ listing
      → parity_of checkout root register listing ≡ done []
      → IsAtParity tools checkout
  parity_of-done root none listing rooted r l e = absurd (ground (arith, e))
  parity_of-done root (some md) none rooted r l e = absurd (ground (arith, e))
  parity_of-done root (some md) (some entries) rooted r l e =
      let (settled, populated) =
        (concludes checkout root (open_compose_deferrals md) entries).0 e in
      record {
        root = root;
        md = md;
        entries = entries;
        rooted = rooted;
        register = r;
        scenarios = l;
        twinned = (IsTwinned-iff root md entries).0 settled;
        populated = populated;
      }

  parity_from-done :
      (root : Option (Outcome RootFault Text))
      → repo_root tools ≡ root
      → parity_from checkout root ≡ some (done [])
      → IsAtParity tools checkout
  parity_from-done none found e = absurd (ground (arith, e))
  parity_from-done (some (fatal fault)) found e = absurd (ground (arith, e))
  parity_from-done (some (done root)) found e = parity_of-done root _ _ found refl refl (cc e)

  -- `TestComposeParity` passes, with no error and no fatal end, exactly if the repository has a root
  -- with a register and a scenarios directory, there is a scenario, and each scenario either has a
  -- compose file and no block of the register that licenses its lack, or has none and such a block.
  pub compose_parity_iff :
      (compose_parity tools checkout ≡ some (done [])) ↔ IsAtParity tools checkout
  unfolding compose_parity
  compose_parity_iff = (
    parity_from-done (repo_root tools) refl,
    λ p.
        let settled =
          (concludes checkout p.root (open_compose_deferrals p.md) p.entries).1
            ((IsTwinned-iff p.root p.md p.entries).1 p.twinned, p.populated) in
        ap (parity_from checkout) p.rooted
        ∙ ap some (ap₂ (parity_of checkout p.root) p.register p.scenarios ∙ settled),
  )
