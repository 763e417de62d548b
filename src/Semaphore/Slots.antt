-- ===== src/Semaphore/Slots.antt =====
-- internal/providers/semaphore.go: how many slots of each provider are taken, through `Get` and a
-- change of the semaphore it returns.
use resillm.Common.{
  ℕ, ◌+◌, ◌<◌, ◌≡◌, refl, sym, ap, subst, ◌∙◌, inl, inr, String, str_eq, eq_iff, Option, none, some,
  arith, if◌then◌else◌, lookup, lookup-insert_hit, lookup-insert_miss, some-inj, Bool-cases,
  Option-cases,
}
use resillm.Semaphore.{Semaphore, ProviderSemaphores, new_semaphore, get, put}
use resillm.Semaphore.Balance.{IsSettled}
use resillm.Semaphore.Registry.{IsReady, get_lem, get-IsReady, get_old, get_new}

abbrev pub held_of : Option Semaphore → ℕ
held_of none = 0
held_of (some s) = s.held

-- The slots taken of a provider's semaphore.
abbrev pub slots : ProviderSemaphores → String → ℕ
slots ps name = held_of (lookup name ps.semaphores)

abbrev pub one_of : String → String → ℕ
one_of name other = if str_eq name other then 1 else 0

abbrev pub no_slot : String → ℕ
no_slot other = 0

pub slots-put_add :
    (ps : ProviderSemaphores) (name other : String) (s : Semaphore)
    → s.held ≡ slots ps name + 1
    → slots (put ps name s) other ≡ slots ps other + one_of name other
slots-put_add ps name other s h = elim (Bool-cases (str_eq name other)) [
  | inl e ↦
      ap held_of (lookup-insert_hit name other s ps.semaphores e)
      ∙ rw (e, ← (eq_iff name other).0 e) h
  | inr e ↦ ap held_of (lookup-insert_miss name other s ps.semaphores e) ∙ rw e (omega arith)
]

pub slots-put_sub :
    (ps : ProviderSemaphores) (name other : String) (s : Semaphore)
    → s.held + 1 ≡ slots ps name
    → slots (put ps name s) other + one_of name other ≡ slots ps other
slots-put_sub ps name other s h = elim (Bool-cases (str_eq name other)) [
  | inl e ↦
      rw (lookup-insert_hit name other s ps.semaphores e, e) (rw (← (eq_iff name other).0 e) h)
  | inr e ↦ rw (lookup-insert_miss name other s ps.semaphores e, e) (omega arith)
]

pub slots-put_same :
    (ps : ProviderSemaphores) (name other : String) (s : Semaphore)
    → lookup name ps.semaphores ≡ some s
    → slots (put ps name s) other ≡ slots ps other
slots-put_same ps name other s e = elim (Bool-cases (str_eq name other)) [
  | inl same ↦
      ap held_of (lookup-insert_hit name other s ps.semaphores same)
      ∙ ap held_of (sym (rw ((eq_iff name other).0 same) at e))
  | inr differ ↦ ap held_of (lookup-insert_miss name other s ps.semaphores differ)
]

fresh_is_empty :
    (name : String) (ps : ProviderSemaphores) → (new_semaphore name ps.capacity).held ≡ 0
unfolding new_semaphore
fresh_is_empty name ps = refl

slots-new :
    (ps : ProviderSemaphores) (name other : String)
    → lookup name ps.semaphores ≡ none
    → slots (put ps name (new_semaphore name ps.capacity)) other ≡ slots ps other
slots-new ps name other e = elim (Bool-cases (str_eq name other)) [
  | inl same ↦
      ap held_of (lookup-insert_hit name other (new_semaphore name ps.capacity) ps.semaphores same)
      ∙ fresh_is_empty name ps
      ∙ ap held_of (sym (rw ((eq_iff name other).0 same) at e))
  | inr differ ↦
      ap held_of
        (lookup-insert_miss name other (new_semaphore name ps.capacity) ps.semaphores differ)
]

pub slots-get :
    (ps : ProviderSemaphores) (name other : String) → slots (get ps name).0 other ≡ slots ps other
slots-get ps name other = elim (Option-cases (lookup name ps.semaphores)) [
  | inr (t, e) ↦ rw (get_old ps name t e)
  | inl e ↦ rw (get_new ps name e) (slots-new ps name other e)
]

pub held-get : (ps : ProviderSemaphores) (name : String) → (get ps name).1.held ≡ slots ps name
held-get ps name = sym (ap held_of (get_lem ps name).0) ∙ slots-get ps name name

pub put-IsReady :
    (ps : ProviderSemaphores) (name : String) (s : Semaphore)
    → IsReady ps
    → IsSettled s
    → 0 < s.capacity
    → IsReady (put ps name s)
put-IsReady ps name s h settled some_slot = record {
  in_range = h.in_range;
  each = λ other t found. elim (Bool-cases (str_eq name other)) [
    | inl e ↦
        subst (λ x. IsSettled x × (0 < x.capacity))
          (some-inj _ _ (sym (lookup-insert_hit name other s ps.semaphores e) ∙ found))
          (settled, some_slot)
    | inr e ↦ h.each other t (sym (lookup-insert_miss name other s ps.semaphores e) ∙ found)
  ];
}

pub has_slot : (ps : ProviderSemaphores) (name : String) → IsReady ps → 0 < (get ps name).1.capacity
has_slot ps name h = ((get-IsReady ps name h).each name (get ps name).1 (get_lem ps name).0).1
