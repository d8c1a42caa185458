-- ===== src/Base/Order.antt =====
-- The order of Go strings, and `sort.Strings`.
use mathlib.Core.Logic.{∥∥₁_elim, inl, inr, ◌⊎◌, ◌↔◌}
use mathlib.Core.List.{Perm, Permᴰ}
use Prim.Native.Nat.{compare, Ordering}
use mathlib.Core.Path.{◌≡◌, refl, ap₂, ◌∙◌}
use mathlib.Core.Bool.{Bool, true, false}
use mathlib.Core.List.{List, [], ◌∷◌}
use native.Mathlib.Omega.{arith}
use e2e.Base.Tests.{if◌then◌else◌, Bool-cases}
use e2e.Base.Texts.{Text}
use e2e.Base.Lists.{All, Any}

-- Lexicographic, as `<=` on Go strings.
unfoldable pub text_le : Text → Text → Bool
text_le [] t = true
text_le (c ∷ s) [] = false
text_le (c ∷ s) (d ∷ t) = elim (compare c d) [
  | Ordering.lt ↦ true
  | Ordering.eq ↦ text_le s t
  | Ordering.gt ↦ false
]

pub text_le_total : (s t : Text) → text_le s t ≡ false → text_le t s ≡ true
unfolding text_le
text_le_total [] t h = ground arith
text_le_total (c ∷ s) [] h = refl
text_le_total (c ∷ s) (d ∷ t) h = ground (arith, text_le_total s t)

pub text_le_antisymm : (s t : Text) → text_le s t ≡ true → text_le t s ≡ true → s ≡ t
unfolding text_le
text_le_antisymm [] [] h k = refl
text_le_antisymm [] (d ∷ t) h k = ground arith
text_le_antisymm (c ∷ s) [] h k = ground arith
text_le_antisymm (c ∷ s) (d ∷ t) h k = ground (arith, text_le_antisymm s t)

pub text_le_trans : (s t u : Text) → text_le s t ≡ true → text_le t u ≡ true → text_le s u ≡ true
unfolding text_le
text_le_trans [] t u h k = refl
text_le_trans (c ∷ s) [] u h k = ground arith
text_le_trans (c ∷ s) (d ∷ t) [] h k = ground arith
text_le_trans (c ∷ s) (d ∷ t) (e ∷ u) h k = ground (arith, text_le_trans s t u)

-- One round of an insertion sort.
unfoldable pub insert_sorted : Text → List Text → List Text
insert_sorted x [] = x ∷ []
insert_sorted x (y ∷ ys) =
    let rest = insert_sorted x ys in if text_le x y then x ∷ y ∷ ys else y ∷ rest

-- `sort.Strings`. The order is total on texts, so every sorting algorithm gives this list.
unfoldable pub sort_strings : List Text → List Text
unfolding insert_sorted
sort_strings [] = []
sort_strings (x ∷ xs) = insert_sorted x (sort_strings xs)

abbrev pub IsSorted : List Text → Type 0
IsSorted [] = Unit
IsSorted (x ∷ xs) = All (λ y. text_le x y ≡ true) xs × IsSorted xs

All-insert_sorted :
    (P : Text → Type 0) (x : Text) (ys : List Text) → P x → All P ys → All P (insert_sorted x ys)
unfolding insert_sorted
All-insert_sorted P x [] px h = (px, tt)
All-insert_sorted P x (y ∷ ys) px (py, h) = ground (arith, All-insert_sorted P x ys px h)

All-le_trans :
    (x y : Text) (ys : List Text)
    → text_le x y ≡ true
    → All (λ z. text_le y z ≡ true) ys
    → All (λ z. text_le x z ≡ true) ys
All-le_trans x y [] h _ = tt
All-le_trans x y (z ∷ ys) h (hz, hs) = (text_le_trans x y z h hz, All-le_trans x y ys h hs)

insert_sorted-IsSorted : (x : Text) (ys : List Text) → IsSorted ys → IsSorted (insert_sorted x ys)
unfolding insert_sorted
insert_sorted-IsSorted x [] _ = (tt, tt)
insert_sorted-IsSorted x (y ∷ ys) (hy, hs) = elim (Bool-cases (text_le x y)) [
  | inl h ↦ rw h ((h, All-le_trans x y ys h hy), (hy, hs))
  | inr h ↦ rw h (All-insert_sorted _ x ys (text_le_total x y h) hy, insert_sorted-IsSorted x ys hs)
]

pub sort_strings-IsSorted : (xs : List Text) → IsSorted (sort_strings xs)
unfolding sort_strings
sort_strings-IsSorted [] = tt
sort_strings-IsSorted (x ∷ xs) = insert_sorted-IsSorted x _ (sort_strings-IsSorted xs)

insert_sorted_comm :
    (x y : Text) (zs : List Text)
    → insert_sorted x (insert_sorted y zs) ≡ insert_sorted y (insert_sorted x zs)
unfolding insert_sorted
insert_sorted_comm x y [] = ground (arith, text_le_total x y, text_le_antisymm x y)
insert_sorted_comm x y (z ∷ zs) = ground (
  arith,
  text_le_total x y,
  text_le_total x z,
  text_le_total y z,
  text_le_antisymm x y,
  text_le_trans x y z,
  text_le_trans y x z,
  insert_sorted_comm x y zs,
)

sort_strings-Permᴰ : {xs ys : List Text} → Permᴰ xs ys → sort_strings xs ≡ sort_strings ys
unfolding sort_strings
sort_strings-Permᴰ Permᴰ.nil = refl
sort_strings-Permᴰ (Permᴰ.cons e p) = ap₂ insert_sorted e (sort_strings-Permᴰ p)
sort_strings-Permᴰ (Permᴰ.swap {l = l} e f) =
    ap₂ (λ u v. insert_sorted u (insert_sorted v (sort_strings l))) e f ∙ insert_sorted_comm _ _ _
sort_strings-Permᴰ (Permᴰ.trans p q) = sort_strings-Permᴰ p ∙ sort_strings-Permᴰ q

texts_set : IsSet (List Text)
texts_set = hlevel

-- The sorted list does not depend on the order of the list that is sorted.
pub sort_strings_of_perm : {xs ys : List Text} → Perm xs ys → sort_strings xs ≡ sort_strings ys
sort_strings_of_perm p = ∥∥₁_elim p (texts_set _ _) sort_strings-Permᴰ

Any-insert_sorted :
    (P : Text → Type 0) (x : Text) (ys : List Text) → Any P (insert_sorted x ys) ↔ (P x ⊎ Any P ys)
unfolding insert_sorted
Any-insert_sorted P x [] = (λ h. h, λ h. h)
Any-insert_sorted P x (y ∷ ys) = ground (arith, Any-insert_sorted P x ys)

-- Sorting loses no text and invents none.
pub Any-sort_strings : (P : Text → Type 0) (xs : List Text) → Any P (sort_strings xs) ↔ Any P xs
unfolding sort_strings
Any-sort_strings P [] = (λ h. h, λ h. h)
Any-sort_strings P (x ∷ xs) =
    ground (arith, Any-insert_sorted P x (sort_strings xs), Any-sort_strings P xs)
