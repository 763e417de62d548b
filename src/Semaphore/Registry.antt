-- ===== src/Semaphore/Registry.antt =====
-- internal/providers/semaphore.go, ProviderSemaphores.Get.
use resillm.Common.{
  some-inj, sym, subst, ◌∙◌, Bool-cases, lookup-insert_hit, lookup-insert_miss, lookup-insert_ne,
  ◌≤◌, ◌<◌, ◌≡◌, refl, ◌≢◌, String, str_eq, none, some, arith, lookup, insert, lookup-insert_self,
  Option-cases, inl, inr, ℤ, pos_part, max_int,
}
use resillm.Semaphore.{Semaphore, ProviderSemaphores, new_semaphore, get}
use resillm.Semaphore.Balance.{IsSettled}

-- Every semaphore in the map is settled and has a slot.
pub record IsReady (ps : ProviderSemaphores) : Type 0 where
  pub in_range : pos_part ps.capacity ≤ max_int
  pub each :
      (name : String) (s : Semaphore)
      → lookup name ps.semaphores ≡ some s
      → IsSettled s × (0 < s.capacity)

new_semaphore-IsSettled :
    (name : String) (capacity : ℤ)
    → pos_part capacity ≤ max_int
    → IsSettled (new_semaphore name capacity) × (0 < (new_semaphore name capacity).capacity)
unfolding new_semaphore
new_semaphore-IsSettled name capacity h = ground arith

pub get_old :
    (ps : ProviderSemaphores) (name : String) (s : Semaphore)
    → lookup name ps.semaphores ≡ some s
    → get ps name ≡ (ps, s)
unfolding get
get_old ps name s e = rw (e, get)

pub get_new :
    (ps : ProviderSemaphores) (name : String)
    → lookup name ps.semaphores ≡ none
    → get ps name ≡ (
      record ps { semaphores = insert name (new_semaphore name ps.capacity) ps.semaphores },
      new_semaphore name ps.capacity,
    )
unfolding get
get_new ps name e = rw (e, get)

abbrev pub GetSpec : ProviderSemaphores → String → ProviderSemaphores × Semaphore → Type 0
GetSpec ps name (ps', s) =
    (lookup name ps'.semaphores ≡ some s)
    × ((t : Semaphore) → lookup name ps.semaphores ≡ some t → (ps' ≡ ps) × (s ≡ t))
    × ((other : String) → name ≢ other → lookup other ps'.semaphores ≡ lookup other ps.semaphores)
    × (ps'.capacity ≡ ps.capacity)
    × (get ps' name ≡ (ps', s))

-- `Get` returns the provider's semaphore as it is in the map afterwards, makes one only if there was
-- none, and touches no other provider's; asked again it changes nothing and returns the same.
pub get_lem : (ps : ProviderSemaphores) (name : String) → GetSpec ps name (get ps name)
get_lem ps name = elim (Option-cases (lookup name ps.semaphores)) [
  | inr (t, e) ↦
      rw (get_old ps name t e)
        (e, λ u e'. (refl, some-inj _ _ (sym e ∙ e')), λ other ne. refl, refl, get_old ps name t e)
  | inl e ↦ rw (get_new ps name e) (
    lookup-insert_self name _ ps.semaphores,
    λ u e'. cc,
    λ other ne. lookup-insert_ne name other _ ps.semaphores ne,
    refl,
    get_old _ name _ (lookup-insert_self name _ ps.semaphores),
  )
]

-- So the semaphores stay ready: what `Get` makes is settled and has a slot, whatever the capacity.
pub get-IsReady : (ps : ProviderSemaphores) (name : String) → IsReady ps → IsReady (get ps name).0
get-IsReady ps name h = elim (Option-cases (lookup name ps.semaphores)) [
  | inr (t, e) ↦ rw (get_old ps name t e) h
  | inl e ↦ rw (get_new ps name e) (record {
    in_range = h.in_range;
    each = λ other s found. elim (Bool-cases (str_eq name other)) [
      | inl same ↦
          subst (λ x. IsSettled x × (0 < x.capacity))
            (some-inj _ _ (sym (lookup-insert_hit name other _ ps.semaphores same) ∙ found))
            (new_semaphore-IsSettled name ps.capacity h.in_range)
      | inr differ ↦
          h.each other s (sym (lookup-insert_miss name other _ ps.semaphores differ) ∙ found)
    ];
  })
]

pub get-IsSettled :
    (ps : ProviderSemaphores) (name : String) → IsReady ps → IsSettled (get ps name).1
get-IsSettled ps name h = ((get-IsReady ps name h).each name (get ps name).1 (get_lem ps name).0).0
