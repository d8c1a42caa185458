-- ===== src/Base/Numbers.antt =====
-- Numbers in decimal, as `strconv.Itoa` and the verb `%d` write them, and the reader of such text.
use Prim.Native.Nat.{ℕ, zero, suc, ◌+◌, ◌*◌, ◌/◌, ◌%◌, ◌-◌, ◌<◌}
use mathlib.Core.Path.{◌≡◌, refl, ap, ◌∙◌}
use mathlib.Core.Logic.{inl, inr}
use mathlib.Core.List.{[], ◌∷◌, ◌++◌}
use native.Mathlib.Omega.{arith}
use e2e.Base.Tests.{ltb, if◌then◌else◌, Bool-cases}
use e2e.Base.Texts.{Text}

-- The digits of a number, with fuel of one more than the number, which is enough.
unfoldable pub digits : ℕ → ℕ → Text
digits zero n = []
digits (suc fuel) n =
    let front = digits fuel (n / 10) in
    if ltb n 10 then (b'0' + n) ∷ [] else front ++ (b'0' + n % 10) ∷ []

-- `strconv.Itoa` of a number that is not negative.
unfoldable pub show_nat : ℕ → Text
unfolding digits
show_nat n = digits (suc n) n

-- The number that decimal digits stand for, from the number that the digits before them stand for.
unfoldable pub read_from : ℕ → Text → ℕ
read_from n [] = n
read_from n (c ∷ s) = read_from (n * 10 + (c - b'0')) s

read_from-append : (n : ℕ) (s t : Text) → read_from n (s ++ t) ≡ read_from (read_from n s) t
unfolding read_from
read_from-append n [] t = refl
read_from-append n (c ∷ s) t = read_from-append (n * 10 + (c - b'0')) s t

read_from-digits : (fuel n : ℕ) → n < fuel → read_from 0 (digits fuel n) ≡ n
unfolding digits read_from
read_from-digits zero n h = elim h [ ]
read_from-digits (suc fuel) n h = elim (Bool-cases (ltb n 10)) [
  | inl small ↦ rw small (omega arith)
  | inr large ↦ rw large (
      read_from-append 0 (digits fuel (n / 10)) ((b'0' + n % 10) ∷ [])
      ∙ (ap (λ m. read_from m ((b'0' + n % 10) ∷ []))
            (read_from-digits fuel (n / 10) (ground arith))
          ∙ omega arith))
]

pub read_from-show_nat : (n : ℕ) → read_from 0 (show_nat n) ≡ n
unfolding show_nat
read_from-show_nat n = read_from-digits (suc n) n (omega arith)
