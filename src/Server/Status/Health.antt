-- ===== src/Server/Status/Health.antt =====
-- internal/server/handlers.go with internal/router/router.go: when the health check fails.
use resillm.Common.{
  String, Bool, true, false, Option, none, some, List, [], ◌∷◌, ℤ, pos, FloatOps, Map, lookup, keys,
  All, ◌≡◌, ◌≢◌, ◌↔◌, refl, sym, ap, ◌∙◌, Bool-cases, Option-cases, inl, inr, none≢some, some-inj,
  subst, arith, if◌then◌else◌,
}
use mathlib.Core.List.{cons≢nil}
use resillm.Circuit.{CircuitBreaker, State, closed, opened, half_open, to_string}
use resillm.Circuit
use resillm.Metrics.{Collector}
use resillm.Router.Status.{ProviderStatus, circuit_of, statuses_of, latency_of, get_provider_status}
use resillm.Server.Status.{is_usable, is_nil, all_circuits_open, handle_health}

-- The provider has a breaker, and it is open.
abbrev pub IsOpen : Map CircuitBreaker → String → Type 0
IsOpen breakers name =
    (cb : CircuitBreaker) × (lookup name breakers ≡ some cb) × (cb.state ≡ opened)

true≢false : ◌≡◌ {A = Bool} true false → ⊥
true≢false e = cc

state-usable : (s : State) → (is_usable (to_string s) ≡ false) ↔ (s ≡ opened)
unfolding is_usable to_string
state-usable closed = (λ e. ground (arith, e), λ e. ground (arith, e))
state-usable half_open = (λ e. ground (arith, e), λ e. ground (arith, e))
state-usable opened = (λ e. refl, λ e. refl)

usable_state :
    (breakers : Map CircuitBreaker) (name : String) (cb : CircuitBreaker)
    → lookup name breakers ≡ some cb
    → circuit_of name breakers ≡ to_string cb.state
unfolding circuit_of Circuit.stats
usable_state breakers name cb n = rw (n, circuit_of) refl

usable_without :
    (breakers : Map CircuitBreaker) (name : String)
    → lookup name breakers ≡ none
    → is_usable (circuit_of name breakers) ≡ true
unfolding circuit_of is_usable
usable_without breakers name n = rw (n, circuit_of) refl

usable-IsOpen :
    (breakers : Map CircuitBreaker) (name : String)
    → (is_usable (circuit_of name breakers) ≡ false) ↔ IsOpen breakers name
usable-IsOpen breakers name = elim (Option-cases (lookup name breakers)) [
  | inl n ↦ (
    λ h. absurd (true≢false (sym (usable_without breakers name n) ∙ h)),
    λ o. absurd (none≢some o.0 (sym n ∙ o.1)),
  )
  | inr (cb, n) ↦
      let circuit = ap is_usable (usable_state breakers name cb n) in
      (
        λ h. (cb, n, (state-usable cb.state).0 (sym circuit ∙ h)),
        λ o.
            circuit
            ∙ (state-usable cb.state).1 (ap (λ c. c.state) (some-inj cb o.0 (sym n ∙ o.1)) ∙ o.2),
      )
]

both {ℓ κ} :
    {P : Type ℓ} {Q : Type κ} (b rest : Bool)
    → (b ≡ false) ↔ P
    → (rest ≡ true) ↔ Q
    → ((if b then false else rest) ≡ true) ↔ (P × Q)
both true rest f g = (λ h. absurd (true≢false (sym h)), λ pq. absurd (true≢false (f.1 pq.0)))
both false rest f g = (λ h. (f.0 refl, g.0 h), λ pq. g.1 pq.1)

pos_ne : ◌≡◌ {A = ℤ} (pos 200) (pos 503) → ⊥
pos_ne e = ground (arith, e)

fails_iff :
    {F : FloatOps} (uptime : ℤ) (statuses : List (ProviderStatus F))
    → ((handle_health uptime statuses).0 ≡ pos 503)
      ↔ ((all_circuits_open statuses ≡ true) × (is_nil statuses ≡ false))
unfolding handle_health
fails_iff uptime statuses = elim (Bool-cases (all_circuits_open statuses)) [
  | inr n ↦
      (λ h. absurd (pos_ne (rw (n, handle_health) at h)), λ h. absurd (true≢false (sym h.0 ∙ n)))
  | inl n ↦ elim (Bool-cases (is_nil statuses)) [
    | inl k ↦ (
      λ h. absurd (pos_ne (rw (n, k, handle_health) at h)),
      λ h. absurd (true≢false (sym k ∙ h.1)),
    )
    | inr k ↦ (λ h. (n, k), λ h. rw (n, k, handle_health) refl)
  ]
]

module _ {F : FloatOps} (breakers : Map CircuitBreaker) (metrics : Option (Collector F)) where
  abbrev IsReported : List String → List (ProviderStatus F) → Type 0
  IsReported names statuses =
      ((all_circuits_open statuses ≡ true) ↔ All (IsOpen breakers) names)
      × ((is_nil statuses ≡ false) ↔ (names ≢ []))

  statuses_of-IsReported :
      (names : List String) (statuses : List (ProviderStatus F))
      → statuses_of breakers metrics names ≡ some statuses
      → IsReported names statuses
  unfolding statuses_of all_circuits_open
  statuses_of-IsReported [] statuses e =
      subst (IsReported []) (some-inj [] statuses e)
        ((λ h. tt, λ h. refl), (λ h. absurd (true≢false h), λ h. absurd (h refl)))
  statuses_of-IsReported (name ∷ names) statuses e =
      elim (Option-cases (latency_of breakers metrics name)) [
        | inl n ↦ absurd (none≢some statuses (rw (n, statuses_of) at e))
        | inr (latency, n) ↦ elim (Option-cases (statuses_of breakers metrics names)) [
          | inl k ↦ absurd (none≢some statuses (rw (n, k, statuses_of) at e))
          | inr (rest, k) ↦
              let ih = statuses_of-IsReported names rest k in
              subst (IsReported (name ∷ names)) (some-inj _ statuses (rw (n, k, statuses_of) at e))
                (
                  both (is_usable (circuit_of name breakers)) (all_circuits_open rest)
                      (usable-IsOpen breakers name) ih.0,
                  (λ h. cons≢nil, λ h. refl),
                )
        ]
      ]

  -- The health check answers 503 exactly when there is a provider and every provider has a breaker
  -- that is open; a provider without a breaker, or with a half-open one, keeps it at 200.
  pub handle_health_iff :
      {P : Type 0} (uptime : ℤ) (providers : Map P) (statuses : List (ProviderStatus F))
      → get_provider_status breakers metrics providers ≡ some statuses
      → ((handle_health uptime statuses).0 ≡ pos 503)
        ↔ ((keys providers ≢ []) × All (IsOpen breakers) (keys providers))
  unfolding get_provider_status
  handle_health_iff uptime providers statuses e =
      let (open_all, some_name) = statuses_of-IsReported (keys providers) statuses e in
      let (to, from) = fails_iff uptime statuses in
      (
        λ h. let k = to h in (some_name.0 k.1, open_all.0 k.0),
        λ h. from (open_all.1 h.1, some_name.1 h.0),
      )
