-- ===== src/Common/Maps.antt =====
-- A Go map with string keys, as an association list. A `range` over it meets the entries in the
-- list's order, which stands for the order that the runtime picks.
use Prim.Native.String.{String}
use mathlib.Core.Bool.{Bool, true, false}
use mathlib.Core.Logic.{◌≢◌, inl, inr}
use mathlib.Core.Path.{◌≡◌, refl}
use mathlib.Core.List.{List, [], ◌∷◌}
use mathlib.Core.Option.{Option, none, some}
use native.Mathlib.Omega.{arith}
use text.Mathlib.Text.{◌==◌ as str_eq}
use text.Mathlib.TextEquality.{eq_iff}
use text.Mathlib.TextPositions.{eq_refl}
use resillm.Common.Tests.{if◌then◌else◌, Bool-cases}

abbrev pub Map {ℓ} : Type ℓ → Type ℓ
Map V = List (String × V)

module _ {ℓ} {V : Type ℓ} where
  unfoldable pub lookup : String → Map V → Option V
  lookup key [] = none
  lookup key (entry ∷ rest) = if str_eq entry.0 key then some entry.1 else lookup key rest

  -- `m[key] = value`.
  unfoldable pub insert : String → V → Map V → Map V
  insert key value [] = (key, value) ∷ []
  insert key value (entry ∷ rest) =
      if str_eq entry.0 key then (key, value) ∷ rest else entry ∷ insert key value rest

  -- A method call that changes the object a key leads to.
  unfoldable pub modify : String → (V → V) → Map V → Map V
  modify k f m = elim (lookup k m) [ none ↦ m | some v ↦ insert k (f v) m ]

  abbrev pub keys : Map V → List String
  keys [] = []
  keys (entry ∷ rest) = entry.0 ∷ keys rest

  -- A `range` that deletes the entries whose values fail a test.
  unfoldable pub keep_values : (V → Bool) → Map V → Map V
  keep_values p [] = []
  keep_values p (entry ∷ rest) =
      if p entry.1 then entry ∷ keep_values p rest else keep_values p rest

  -- No key occurs twice.
  abbrev pub IsDistinct : Map V → Type ℓ
  IsDistinct [] = Unit
  IsDistinct (entry ∷ rest) = (lookup entry.0 rest ≡ none) × IsDistinct rest

  pub lookup-insert :
      (key asked : String) (value : V) (m : Map V)
      → lookup asked (insert key value m)
        ≡ (if str_eq key asked then some value else lookup asked m)
  unfolding lookup insert
  lookup-insert key asked value [] = refl
  lookup-insert key asked value (entry ∷ rest) = ground (
    arith,
    eq_iff entry.0 key,
    eq_iff entry.0 asked,
    eq_iff key asked,
    lookup-insert key asked value rest,
  )

  pub lookup-insert_self :
      (key : String) (value : V) (m : Map V) → lookup key (insert key value m) ≡ some value
  lookup-insert_self key value m = rw (lookup-insert key key value m, eq_refl key)

  pub lookup-insert_hit :
      (k j : String) (v : V) (m : Map V) → str_eq k j ≡ true → lookup j (insert k v m) ≡ some v
  lookup-insert_hit k j v m e = rw (lookup-insert k j v m, e)

  pub lookup-insert_miss :
      (k j : String) (v : V) (m : Map V) → str_eq k j ≡ false → lookup j (insert k v m) ≡ lookup j m
  lookup-insert_miss k j v m e = rw (lookup-insert k j v m, e)

  pub lookup-insert_ne :
      (k j : String) (v : V) (m : Map V) → k ≢ j → lookup j (insert k v m) ≡ lookup j m
  lookup-insert_ne k j v m ne = rw (lookup-insert k j v m) (ground (arith, eq_iff k j))

  pub insert-IsDistinct :
      (key : String) (value : V) (m : Map V) → IsDistinct m → IsDistinct (insert key value m)
  unfolding insert lookup
  insert-IsDistinct key value [] d = (ground arith, tt)
  insert-IsDistinct key value (entry ∷ rest) d = elim (Bool-cases (str_eq entry.0 key)) [
    | inl e ↦ rw (e, insert) (rw ((eq_iff entry.0 key).0 e) at d)
    | inr e ↦
        rw (e, insert)
          (
            ground (
              arith,
              eq_iff entry.0 key,
              eq_iff key entry.0,
              lookup-insert key entry.0 value rest,
              d.0,
            ),
            insert-IsDistinct key value rest d.1,
          )
  ]

  keep_values-none :
      (asked : String) (p : V → Bool) (m : Map V)
      → lookup asked m ≡ none
      → lookup asked (keep_values p m) ≡ none
  unfolding lookup keep_values
  keep_values-none asked p [] h = refl
  keep_values-none asked p (entry ∷ rest) h = ground (arith, keep_values-none asked p rest)

  pub keep_values-IsDistinct :
      (p : V → Bool) (m : Map V) → IsDistinct m → IsDistinct (keep_values p m)
  unfolding keep_values
  keep_values-IsDistinct p [] d = tt
  keep_values-IsDistinct p (entry ∷ rest) d = elim (Bool-cases (p entry.1)) [
    | inl e ↦
        rw (e, keep_values) (keep_values-none entry.0 p rest d.0, keep_values-IsDistinct p rest d.1)
    | inr e ↦ rw (e, keep_values) (keep_values-IsDistinct p rest d.1)
  ]

  pub lookup-keep_values :
      (asked : String) (p : V → Bool) (m : Map V)
      → IsDistinct m
      → lookup asked (keep_values p m)
        ≡ elim (lookup asked m) [ none ↦ none | some v ↦ if p v then some v else none ]
  unfolding lookup keep_values
  lookup-keep_values asked p [] d = refl
  lookup-keep_values asked p (entry ∷ rest) d = ground (
    arith,
    eq_iff entry.0 asked,
    lookup-keep_values asked p rest d.1,
    keep_values-none asked p rest,
    d.0,
  )
