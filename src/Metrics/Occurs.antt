-- ===== src/Metrics/Occurs.antt =====
-- internal/metrics/collector.go: the loop of `contains` over the positions of a text.
use Prim.Native.String.{[], ◌∷◌, ◌++◌}
use text.Mathlib.Text.{starts_with}
use text.Mathlib.TextBridge.{IsInfix}
use text.Mathlib.TextEquality.{starts_with_iff}
use text.Mathlib.TextLemmas.{nil-append, cons-append}
use text.Mathlib.TextPositions.{starts_with_of_prefix}
use Prim.Native.Char.{Char}
use mathlib.Core.Logic.{◌↔◌, ∥∥₁_map, ∥∥₁_elim}
use resillm.Common.{String, Bool, true, false, ◌≡◌, refl, ap, subst, ◌∙◌, Bool-cases, inl, inr}

-- The loop over the positions of a text.
unfoldable pub occurs : String → String → Bool
occurs substr [] = starts_with [] substr
occurs substr (c ∷ s) = elim (starts_with (c ∷ s) substr) [ true ↦ true | false ↦ occurs substr s ]

occurs_here : (substr s : String) → starts_with s substr ≡ true → occurs substr s ≡ true
unfolding occurs
occurs_here substr [] h = h
occurs_here substr (c ∷ s) h = rw (h, occurs) refl

occurs_later :
    (substr : String) (c : Char) (s : String)
    → occurs substr s ≡ true
    → occurs substr (c ∷ s) ≡ true
unfolding occurs
occurs_later substr c s h = elim (Bool-cases (starts_with (c ∷ s) substr)) [
  | inl e ↦ rw (e, occurs) refl
  | inr e ↦ rw (e, occurs) h
]

occurs-append : (substr u v : String) → occurs substr ((u ++ substr) ++ v) ≡ true
occurs-append substr [] v =
    rw (nil-append substr)
      (occurs_here substr (substr ++ v) (starts_with_of_prefix substr (substr ++ v) (v, refl)))
occurs-append substr (c ∷ u) v =
    rw (cons-append c u substr, cons-append c (u ++ substr) v)
      (occurs_later substr c ((u ++ substr) ++ v) (occurs-append substr u v))

infix_later : (substr : String) (c : Char) (s : String) → IsInfix substr s → IsInfix substr (c ∷ s)
infix_later substr c s h =
    ∥∥₁_map h (λ (x : (u : String) × (v : String) × Path String ((u ++ substr) ++ v) s). (
      c ∷ x.0,
      x.1,
      ap (λ t. t ++ x.1) (cons-append c x.0 substr)
          ∙ (cons-append c (x.0 ++ substr) x.1 ∙ ap (λ t. c ∷ t) x.2),
    ))

infix_here : (substr s : String) → starts_with s substr ≡ true → IsInfix substr s
infix_here substr s h =
    let q = (starts_with_iff s substr).0 h in
    ∣ ([], q.0, ap (λ t. t ++ q.0) (nil-append substr) ∙ q.1) ∣₁

infix_of : (substr s : String) → occurs substr s ≡ true → IsInfix substr s
unfolding occurs
infix_of substr [] h = infix_here substr [] h
infix_of substr (c ∷ s) h = elim (Bool-cases (starts_with (c ∷ s) substr)) [
  | inl e ↦ infix_here substr (c ∷ s) e
  | inr e ↦ infix_later substr c s (
      infix_of substr s
        (subst (λ b. (elim b as (λ d. Bool) [ true ↦ true | false ↦ occurs substr s ]) ≡ true) e h))
]

occurs-IsInfix : (substr s : String) → (occurs substr s ≡ true) ↔ IsInfix substr s
occurs-IsInfix substr s = (
  infix_of substr s,
  λ h.
      ∥∥₁_elim h (hlevel) (λ (x : (u : String) × (v : String) × Path String ((u ++ substr) ++ v) s).
        subst (λ t. occurs substr t ≡ true) x.2 (occurs-append substr x.0 x.1)),
)
