-- ===== src/Base/Maps.antt =====
-- Go maps with string keys, as lists of entries. A range visits the keys in an order that the
-- runtime chooses, so the functions that range take that order as an argument.
use mathlib.Core.Path.{◌≡◌, refl, sym, ◌∙◌}
use mathlib.Core.Logic.{◌≢◌, ◌⊎◌, inl, inr}
use mathlib.Core.Bool.{Bool, false}
use mathlib.Core.Option.{Option, none, some}
use mathlib.Core.List.{List, [], ◌∷◌}
use native.Mathlib.Omega.{arith}
use e2e.Base.Tests.{◌==◌, if◌then◌else◌}
use e2e.Base.Texts.{Text, text_eq}

abbrev pub Map {ℓ} : Type ℓ → Type ℓ
Map V = List (Text × V)

module _ {ℓ} {V : Type ℓ} where
  -- `v, ok := entries[key]`
  unfoldable pub lookup : Text → Map V → Option V
  lookup key [] = none
  lookup key ((name, value) ∷ entries) = if name == key then some value else lookup key entries

  -- `entries[key] = value`, in its old place if the key is there.
  unfoldable pub insert : Text → V → Map V → Map V
  insert key value [] = (key, value) ∷ []
  insert key value ((name, old) ∷ entries) =
      let rest = insert key value entries in
      if name == key then (key, value) ∷ entries else (name, old) ∷ rest

  -- The keys, in the order of the entries.
  unfoldable pub keys : Map V → List Text
  keys [] = []
  keys ((k, v) ∷ m) = k ∷ keys m

  pub lookup-insert :
      (key other : Text) (value : V) (entries : Map V)
      → lookup other (insert key value entries)
        ≡ (if key == other then some value else lookup other entries)
  unfolding lookup insert
  lookup-insert key other value [] = refl
  lookup-insert key other value ((name, old) ∷ entries) =
      ground (arith, lookup-insert key other value entries)

  pub lookup-insert_same :
      (key : Text) (value : V) (entries : Map V)
      → lookup key (insert key value entries) ≡ some value
  lookup-insert_same key value entries = ground (arith, lookup-insert key key value entries)

  pub lookup-insert_other :
      (key other : Text) (value : V) (entries : Map V)
      → key ≢ other
      → lookup other (insert key value entries) ≡ lookup other entries
  lookup-insert_other key other value entries apart =
      ground (arith, lookup-insert key other value entries, apart)

  -- What a lookup finds after an insertion is new or was there.
  pub lookup-insert_cases :
      (key other : Text) (value found : V) (entries : Map V)
      → lookup other (insert key value entries) ≡ some found
      → ((key ≡ other) × (value ≡ found)) ⊎ ((key ≢ other) × (lookup other entries ≡ some found))
  lookup-insert_cases key other value found entries e = elim (text_eq.dec key other) [
    | yes same ↦
        let both : some value ≡ some found =
          ground (arith, e, same, lookup-insert key other value entries) in
        inl (same, cc both)
    | no apart ↦ inr (apart, sym (lookup-insert_other key other value entries apart) ∙ e)
  ]

-- `m[k]` for a map to Booleans: a missing key reads as `false`.
unfoldable pub flagged : Text → Map Bool → Bool
unfolding lookup
flagged k m = elim (lookup k m) [ none ↦ false | some b ↦ b ]

-- `m[k]` for a map to texts: a missing key reads as the empty text.
unfoldable pub value_at : Text → Map Text → Text
unfolding lookup
value_at k m = elim (lookup k m) [ none ↦ [] | some v ↦ v ]
