-- ===== src/Common/Sizes.antt =====
-- How many entries a map has, by the keys of another that it holds.
use Prim.Native.String.{String}
use Prim.Native.Nat.{suc, ◌≤◌}
use mathlib.Core.Bool.{false}
use mathlib.Core.Logic.{inl, inr}
use mathlib.Core.Path.{◌≡◌, refl, ◌∙◌}
use mathlib.Core.List.{[], ◌∷◌}
use mathlib.Core.Option.{none, some}
use native.Mathlib.Omega.{arith}
use text.Mathlib.Text.{◌==◌ as str_eq}
use text.Mathlib.TextEquality.{eq_iff}
use resillm.Common.Tests.{if◌then◌else◌, Bool-cases}
use resillm.Common.Lists.{length}
use resillm.Common.Maps.{Map, lookup, IsDistinct}

module _ {ℓ} {V : Type ℓ} where
  delete : String → Map V → Map V
  delete key [] = []
  delete key (entry ∷ rest) = if str_eq entry.0 key then rest else entry ∷ delete key rest

  length-delete :
      (key : String) (v : V) (m : Map V)
      → lookup key m ≡ some v
      → length m ≡ suc (length (delete key m))
  unfolding delete lookup
  length-delete key v [] h = ground (arith, h)
  length-delete key v (entry ∷ rest) h = ground (arith, h, length-delete key v rest)

  lookup-delete :
      (key asked : String) (m : Map V)
      → str_eq key asked ≡ false
      → lookup asked (delete key m) ≡ lookup asked m
  unfolding delete lookup
  lookup-delete key asked [] h = refl
  lookup-delete key asked (entry ∷ rest) h = ground (
    arith,
    h,
    lookup-delete key asked rest h,
    eq_iff entry.0 key,
    eq_iff key asked,
    eq_iff entry.0 asked,
  )

  -- Every key of the first map is in the second.
  abbrev pub Within : Map V → Map V → Type ℓ
  Within [] n = Unit
  Within (entry ∷ rest) n = ((v : V) × (lookup entry.0 n ≡ some v)) × Within rest n

  Within-delete :
      (key : String) (m n : Map V) → lookup key m ≡ none → Within m n → Within m (delete key n)
  unfolding lookup
  Within-delete key [] n h w = tt
  Within-delete key (entry ∷ rest) n h w = elim (Bool-cases (str_eq entry.0 key)) [
    | inl e ↦ ground (arith, e, h)
    | inr e ↦
        let differ : str_eq key entry.0 ≡ false =
          ground (arith, e, eq_iff key entry.0, eq_iff entry.0 key) in
        (
          (w.0.0, lookup-delete key entry.0 n differ ∙ w.0.1),
          Within-delete key rest n (rw e at h) w.1,
        )
  ]

  -- The keys of a map are no more than those of a map that has them all.
  pub length-Within : (m n : Map V) → IsDistinct m → Within m n → length m ≤ length n
  length-Within [] n d w = omega arith
  length-Within (entry ∷ rest) n d w = omega (
    arith,
    length-delete entry.0 w.0.0 n w.0.1,
    length-Within rest (delete entry.0 n) d.1 (Within-delete entry.0 rest n d.0 w.1),
  )
