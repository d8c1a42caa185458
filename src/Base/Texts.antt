-- ===== src/Base/Texts.antt =====
-- Go strings as lists of code points, with the functions of `strings` that the harness calls.
use Prim.Native.Nat.{ℕ}
use Prim.Native.Char.{code}
use Prim.Native.String.{String}
use mathlib.Core.Bool.{Bool, true, false, ◌&&◌, ◌||◌}
use mathlib.Core.Option.{Option, none, some}
use mathlib.Core.List.{List, [], ◌∷◌, reverse}
use native.Mathlib.Decide.{ℕ_discrete}
use e2e.Base.Tests.{Eq, ◌==◌, nat_eq, leb, if◌then◌else◌}

-- A string that is valid UTF-8, as its code points. Their order is that of the bytes.
abbrev pub Text : Type 0
Text = List ℕ

-- A literal of the source. It stays shut in proofs, so that a long literal is one atom.
unfoldable pub lit : String → Text
lit String.[] = []
lit (String.◌∷◌ c s) = code c ∷ lit s

unfoldable pub text_dec : Discrete Text
text_dec = hlevel ℕ_discrete

instance unfoldable pub text_eq : Eq Text
text_eq = record { dec = text_dec }

-- `strings.CutPrefix`: the rest behind a prefix, if the text has it.
unfoldable pub cut_prefix : Text → Text → Option Text
cut_prefix s [] = some s
cut_prefix [] (p ∷ ps) = none
cut_prefix (c ∷ s) (p ∷ ps) = let rest = cut_prefix s ps in if c == p then rest else none

-- `strings.HasPrefix`
unfoldable pub has_prefix : Text → Text → Bool
unfolding cut_prefix
has_prefix s p = elim (cut_prefix s p) [ none ↦ false | some _ ↦ true ]

-- `strings.TrimPrefix`
unfoldable pub trim_prefix : Text → Text → Text
unfolding cut_prefix
trim_prefix s p = elim (cut_prefix s p) [ none ↦ s | some rest ↦ rest ]

-- `unicode.IsSpace`
unfoldable pub is_space : ℕ → Bool
is_space c =
    (leb 9 c && leb c 13)
    || c == 32
    || c == 0x85
    || c == 0xa0
    || c == 0x1680
    || (leb 0x2000 c && leb c 0x200a)
    || c == 0x2028
    || c == 0x2029
    || c == 0x202f
    || c == 0x205f
    || c == 0x3000

unfoldable pub trim_left : Text → Text
unfolding is_space
trim_left [] = []
trim_left (c ∷ s) = let rest = trim_left s in if is_space c then rest else c ∷ s

-- `strings.TrimSpace`
unfoldable pub trim_space : Text → Text
unfolding trim_left
trim_space s = reverse (trim_left (reverse (trim_left s)))

-- The characters from the first one that is not a slash.
unfoldable pub drop_slashes : Text → Text
drop_slashes [] = []
drop_slashes (c ∷ s) = let rest = drop_slashes s in if c == b'/' then rest else c ∷ s

-- The characters before the first slash.
unfoldable pub before_slash : Text → Text
before_slash [] = []
before_slash (c ∷ s) = let rest = before_slash s in if c == b'/' then [] else c ∷ rest

-- `filepath.Base`
unfoldable pub base_name : Text → Text
unfolding drop_slashes before_slash
base_name [] = b'.' ∷ []
base_name (c ∷ s) = elim (before_slash (drop_slashes (reverse (c ∷ s)))) [
  | [] ↦ b'/' ∷ []
  | x ∷ xs ↦ reverse (x ∷ xs)
]
