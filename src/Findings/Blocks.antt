-- ===== src/Findings/Blocks.antt =====
-- internal/harness/parity_test.go: the blocks of a register are its text between the headings.
use e2e.Base.{
  ℕ, zero, suc, ◌-◌, ◌≡◌, refl, ap, sym, ◌∙◌, arith, inl, inr, Bool-cases, true, false, List, [],
  ◌∷◌, ◌++◌, append_assoc, Text, All, length, if◌then◌else◌, has_prefix,
}
use e2e.Base.Strings.{add_head, contains_text, has_prefix_sound, has_prefix-append}
use e2e.Findings.{pieces}

-- Parts with a separator before each.
unfoldable pub rejoined : Text → List Text → Text
rejoined sep [] = []
rejoined sep (part ∷ rest) = sep ++ (part ++ rejoined sep rest)

-- The parts of a text: it is put together from them again, and none has the separator in it.
pub record AreParts (sep s : Text) (all : List Text) : Type 0 where
  pub first : Text
  pub rest : List Text
  pub all_is : all ≡ first ∷ rest
  pub whole : s ≡ first ++ rejoined sep rest
  pub apart : All (λ part. contains_text part sep ≡ false) all

-- What is behind a skip.
behind : ℕ → Text → Text
behind zero s = s
behind (suc n) [] = []
behind (suc n) (c ∷ s) = behind n s

behind-append : (p r : Text) → behind (length p) (p ++ r) ≡ r
unfolding behind
behind-append [] r = refl
behind-append (c ∷ p) r = behind-append p r

AreParts-add_head :
    (sep : Text) (c : ℕ) (s : Text) (all : List Text)
    → has_prefix (c ∷ s) sep ≡ false
    → AreParts sep s all
    → AreParts sep (c ∷ s) (add_head c all)
unfolding add_head contains_text
AreParts-add_head sep c s all no_sep p =
    let whole : c ∷ s ≡ (c ∷ p.first) ++ rejoined sep p.rest = ap (◌∷◌ c) p.whole in
    let heads = rw p.all_is at p.apart in
    let inner : contains_text (p.first) sep ≡ false = heads.0 in
    let others : All (λ part. contains_text part sep ≡ false) p.rest = heads.1 in
    let outer : has_prefix (c ∷ p.first) sep ≡ false =
      elim (Bool-cases (has_prefix (c ∷ p.first) sep)) [
        | inl begins ↦
            let (r, first_is) = has_prefix_sound (c ∷ p.first) sep begins in
            let all_is : c ∷ s ≡ sep ++ (r ++ rejoined sep p.rest) =
              whole
              ∙ (ap (λ x. x ++ rejoined sep p.rest) first_is
                  ∙ append_assoc sep r (rejoined sep p.rest)) in
            absurd (
              ground (
                arith,
                no_sep,
                ap (λ x. has_prefix x sep) all_is,
                has_prefix-append sep (r ++ rejoined sep p.rest),
              ))
        | inr apart ↦ apart
      ] in
    record {
      first = c ∷ p.first;
      rest = p.rest;
      all_is = rw p.all_is refl;
      whole = whole;
      apart = rw p.all_is (ground (arith, outer, inner), others);
    }

nothing-AreParts : (d : ℕ) (ds : Text) → AreParts (d ∷ ds) [] ([] ∷ [])
unfolding contains_text rejoined has_prefix
nothing-AreParts d ds = record {
  first = [];
  rest = [];
  all_is = refl;
  whole = refl;
  apart = (refl, tt);
}

module _ (sep : Text) (c : ℕ) (s : Text) where
  pieces-cut :
      has_prefix (c ∷ s) sep ≡ true → pieces sep zero (c ∷ s) ≡ [] ∷ pieces sep (length sep - 1) s
  unfolding pieces
  pieces-cut e =
      ap (λ b. if b then [] ∷ pieces sep (length sep - 1) s else add_head c (pieces sep zero s)) e

  pieces-uncut :
      has_prefix (c ∷ s) sep ≡ false → pieces sep zero (c ∷ s) ≡ add_head c (pieces sep zero s)
  unfolding pieces
  pieces-uncut e =
      ap (λ b. if b then [] ∷ pieces sep (length sep - 1) s else add_head c (pieces sep zero s)) e

AreParts-cut :
    (d : ℕ) (ds s r : Text) (all : List Text)
    → s ≡ (d ∷ ds) ++ r
    → AreParts (d ∷ ds) r all
    → AreParts (d ∷ ds) s ([] ∷ all)
unfolding rejoined contains_text has_prefix
AreParts-cut d ds s r all s_is p = record {
  first = [];
  rest = all;
  all_is = refl;
  whole = s_is ∙ (ap (λ x. (d ∷ ds) ++ x) p.whole ∙ ap (rejoined (d ∷ ds)) (sym p.all_is));
  apart = (refl, p.apart);
}

pieces-AreParts :
    (d : ℕ) (ds s : Text) (skip : ℕ) → AreParts (d ∷ ds) (behind skip s) (pieces (d ∷ ds) skip s)
unfolding pieces behind
pieces-AreParts d ds [] zero = nothing-AreParts d ds
pieces-AreParts d ds [] (suc skip) = nothing-AreParts d ds
pieces-AreParts d ds (c ∷ s) (suc skip) = pieces-AreParts d ds s skip
pieces-AreParts d ds (c ∷ s) zero = elim (Bool-cases (has_prefix (c ∷ s) (d ∷ ds))) [
  | inl cut ↦
      let (r, s_is) = has_prefix_sound (c ∷ s) (d ∷ ds) cut in
      let tail_is : s ≡ ds ++ r = cc s_is in
      let skipped : behind (length (d ∷ ds) - 1) s ≡ r =
        ap (λ n. behind n s) (omega arith)
        ∙ (ap (behind (length ds)) tail_is ∙ behind-append ds r) in
      rw (pieces-cut (d ∷ ds) c s cut) (
        AreParts-cut d ds (c ∷ s) r _ s_is
          (rw (← skipped) (pieces-AreParts d ds s (length (d ∷ ds) - 1))))
  | inr uncut ↦
      rw (pieces-uncut (d ∷ ds) c s uncut) (
        AreParts-add_head (d ∷ ds) c s (pieces (d ∷ ds) zero s) uncut (pieces-AreParts d ds s zero))
]

pub split-AreParts : (d : ℕ) (ds s : Text) → AreParts (d ∷ ds) s (pieces (d ∷ ds) zero s)
unfolding behind
split-AreParts d ds s = pieces-AreParts d ds s zero
