-- ===== src/Base/Strings.antt =====
-- More of package `strings`: prefixes, substrings, splitting, and what they mean.
use Prim.Native.Nat.{ℕ}
use mathlib.Core.Path.{◌≡◌, refl, ap, sym, ◌∙◌}
use mathlib.Core.Logic.{inl, inr}
use mathlib.Core.Bool.{Bool, true, ◌||◌}
use mathlib.Core.Option.{Option, none, some}
use mathlib.Core.List.{List, [], ◌∷◌, ◌++◌, reverse, reverse-append, reverse-reverse}
use native.Mathlib.Omega.{arith}
use e2e.Base.Tests.{◌==◌, nat_eq, if◌then◌else◌, Bool-cases, Option-cases}
use e2e.Base.Texts.{Text, cut_prefix, has_prefix}

pub cut_prefix_sound : (s p rest : Text) → cut_prefix s p ≡ some rest → s ≡ p ++ rest
unfolding cut_prefix
cut_prefix_sound s [] rest h = ground arith
cut_prefix_sound [] (p ∷ ps) rest h = cc
cut_prefix_sound (c ∷ s) (p ∷ ps) rest h = ground (arith, cut_prefix_sound s ps rest)

pub cut_prefix-append : (p rest : Text) → cut_prefix (p ++ rest) p ≡ some rest
unfolding cut_prefix
cut_prefix-append [] rest = refl
cut_prefix-append (p ∷ ps) rest = ground (arith, cut_prefix-append ps rest)

pub has_prefix_sound : (s p : Text) → has_prefix s p ≡ true → (rest : Text) × (s ≡ p ++ rest)
unfolding has_prefix
has_prefix_sound s p h = elim (Option-cases (cut_prefix s p)) [
  | inl e ↦ absurd (ground arith)
  | inr (rest, e) ↦ (rest, cut_prefix_sound s p rest e)
]

pub has_prefix-append : (p rest : Text) → has_prefix (p ++ rest) p ≡ true
unfolding has_prefix
has_prefix-append p rest = rw (cut_prefix-append p rest, has_prefix)

-- `strings.Contains`
unfoldable pub contains_text : Text → Text → Bool
contains_text [] p = has_prefix [] p
contains_text (c ∷ s) p = has_prefix (c ∷ s) p || contains_text s p

pub contains_text_sound :
    (s p : Text)
    → contains_text s p ≡ true
    → (before : Text) × (after : Text) × (s ≡ before ++ (p ++ after))
unfolding contains_text
contains_text_sound [] p h = let (rest, e) = has_prefix_sound [] p h in ([], rest, e)
contains_text_sound (c ∷ s) p h = elim (Bool-cases (has_prefix (c ∷ s) p)) [
  | inl here ↦ let (rest, e) = has_prefix_sound (c ∷ s) p here in ([], rest, e)
  | inr past ↦
      let (before, after, e) = contains_text_sound s p (ground arith) in
      (c ∷ before, after, ap (◌∷◌ c) e)
]

pub contains_text-append : (before p after : Text) → contains_text (before ++ (p ++ after)) p ≡ true
unfolding contains_text
contains_text-append (c ∷ before) p after = ground (arith, contains_text-append before p after)
contains_text-append [] p after = has_here (p ++ after) (has_prefix-append p after)
  where
    has_here : (s : Text) → has_prefix s p ≡ true → contains_text s p ≡ true
    has_here [] h = h
    has_here (c ∷ s) h = rw h

-- A character in front of the first part.
unfoldable pub add_head : ℕ → List Text → List Text
add_head c [] = (c ∷ []) ∷ []
add_head c (part ∷ parts) = (c ∷ part) ∷ parts

-- `strings.Split` at one character: there is always a part, the last one without the separator.
unfoldable pub split : Text → ℕ → List Text
unfolding add_head
split [] sep = [] ∷ []
split (c ∷ s) sep = let parts = split s sep in if c == sep then [] ∷ parts else add_head c parts

-- `strings.HasSuffix` with `strings.TrimSuffix`: the text before a suffix, if the text has it.
unfoldable pub cut_suffix : Text → Text → Option Text
unfolding cut_prefix
cut_suffix s suffix = elim (cut_prefix (reverse s) (reverse suffix)) [
  | none ↦ none
  | some rest ↦ some (reverse rest)
]

pub cut_suffix-append : (s suffix : Text) → cut_suffix (s ++ suffix) suffix ≡ some s
unfolding cut_suffix
cut_suffix-append s suffix =
    rw
      (
        cut_suffix,
        reverse-append s suffix,
        cut_prefix-append (reverse suffix) (reverse s),
        reverse-reverse s,
      )
      refl

cut_suffix-front :
    (s suffix front : Text)
    → cut_prefix (reverse s) (reverse suffix) ≡ some front
    → cut_suffix s suffix ≡ some (reverse front)
unfolding cut_suffix
cut_suffix-front s suffix front cut = rw (cut_suffix, cut) refl

pub cut_suffix_sound : (s suffix rest : Text) → cut_suffix s suffix ≡ some rest → s ≡ rest ++ suffix
unfolding cut_suffix
cut_suffix_sound s suffix rest e = elim (Option-cases (cut_prefix (reverse s) (reverse suffix))) [
  | inl missing ↦ absurd (ground (arith, e, missing))
  | inr (front, cut) ↦
      let rest_is : reverse front ≡ rest = cc (e, cut_suffix-front s suffix front cut) in
      sym (reverse-reverse s)
      ∙ (ap reverse (cut_prefix_sound (reverse s) (reverse suffix) front cut)
          ∙ (reverse-append (reverse suffix) front
              ∙ (ap (λ x. reverse front ++ x) (reverse-reverse suffix)
                  ∙ ap (λ x. x ++ suffix) rest_is)))
]
