-- ===== src/LoadShed/Connections.antt =====
-- internal/server/loadshed.go: the connections of each address.
use resillm.Common.{
  ℕ, zero, suc, ◌-◌, ◌≤◌, ◌<◌, ◌≡◌, refl, ap, ◌∙◌, String, str_eq, eqb_ℤ, not, Bool-cases, ◌⊎◌, leb,
  true, false, arith, pos, ℤ, max_int, if◌then◌else◌, lookup, insert, lookup-insert,
  lookup-insert_self, IsDistinct, insert-IsDistinct, keep_values-IsDistinct, lookup-keep_values,
  eq_iff, Option-cases, inl, inr,
}
use resillm.LoadShed.{
  LoadShedder, value, state_new, state_closed, track_connection, release_connection,
  conn_state_handler, cleanup,
}

-- The count of an address: 0 without an entry.
abbrev pub count : String → LoadShedder → ℤ
count ip ls = value (lookup ip ls.connections_per_ip)

-- The shedder, and for each address the connections that it let stay and that are still open.
pub record System : Type 0 where
  pub shedder : LoadShedder
  pub live : String → ℕ

abbrev pub set : String → ℕ → (String → ℕ) → String → ℕ
set ip n f other = if str_eq ip other then n else f other

pub data Step (s : System) : System → Type 0 where
  accepts :
      (ip : String)
      → (track_connection ip s.shedder).1 ≡ true
      → Step s (record {
        shedder = (track_connection ip s.shedder).0;
        live = set ip (suc (s.live ip)) s.live;
      })
  refuses :
      (ip : String)
      → (track_connection ip s.shedder).1 ≡ false
      → Step s (record { shedder = (track_connection ip s.shedder).0; live = s.live })
  closes :
      (ip : String) (n : ℕ)
      → s.live ip ≡ suc n
      → Step s (record { shedder = release_connection ip s.shedder; live = set ip n s.live })
  cleans : Step s (record { shedder = cleanup s.shedder; live = s.live })

pub data Reach (s : System) : System → Type 0 where
  here : Reach s s
  next : {t u : System} → Reach s t → Step t u → Reach s u

pub record IsCounted (max : ℕ) (s : System) : Type 0 where
  pub limit : s.shedder.max_connections_per_ip ≡ pos max
  pub distinct : IsDistinct s.shedder.connections_per_ip
  pub counted : (ip : String) → count ip s.shedder ≡ pos (s.live ip)
  pub few : (ip : String) → s.live ip ≤ max

put_count :
    (max : ℕ) (s : System) (ip : String) (n : ℕ) (live : String → ℕ)
    → n ≤ max
    → ((other : String) → live other ≡ set ip n s.live other)
    → IsCounted max s
    → IsCounted max (record {
      shedder = record (s.shedder) {
        connections_per_ip = insert ip (pos n) s.shedder.connections_per_ip;
      };
      live = live;
    })
put_count max s ip n live b same h = record {
  limit = h.limit;
  distinct = insert-IsDistinct ip (pos n) s.shedder.connections_per_ip h.distinct;
  counted = λ other. ground (
    arith,
    lookup-insert ip other (pos n) s.shedder.connections_per_ip,
    h.counted other,
    same other,
  );
  few = λ other. ground (arith, h.few other, same other);
}

abbrev put : String → ℕ → LoadShedder → LoadShedder
put ip n ls = record ls { connections_per_ip = insert ip (pos n) ls.connections_per_ip }

-- `TrackConnection`, by the number of the address's connections that are open.
track_cases :
    (max : ℕ) (s : System) (ip : String)
    → 0 < max
    → max ≤ max_int
    → IsCounted max s
    → ((s.live ip < max)
        × (track_connection ip s.shedder ≡ (put ip (suc (s.live ip)) s.shedder, true)))
      ⊎ ((s.live ip ≡ max)
          × (track_connection ip s.shedder ≡ (put ip (s.live ip) s.shedder, false)))
unfolding track_connection
track_cases max s ip p q h = elim (Bool-cases (leb max (s.live ip))) [
  | inl e ↦ inr (ground (arith, h.few ip), ground (arith, h.few ip, h.counted ip, h.limit))
  | inr e ↦ inl (ground arith, ground (arith, h.counted ip, h.limit))
]

Step-IsCounted :
    (max : ℕ) {s t : System}
    → 0 < max
    → max ≤ max_int
    → Step s t
    → IsCounted max s
    → IsCounted max t
unfolding release_connection cleanup
Step-IsCounted max {s} p q (accepts ip e) h = elim (track_cases max s ip p q h) [
  | inl (b, t) ↦
      rw t
        (put_count max s ip (suc (s.live ip)) (set ip (suc (s.live ip)) s.live) b (λ other. refl) h)
  | inr (b, t) ↦ cc
]
Step-IsCounted max {s} p q (refuses ip e) h = elim (track_cases max s ip p q h) [
  | inl (b, t) ↦ cc
  | inr (b, t) ↦ rw t (
      put_count max s ip (s.live ip) s.live (h.few ip) (λ other. ground (arith, eq_iff ip other)) h)
]
Step-IsCounted max {s} p q (closes ip n e) h =
    elim (Option-cases (lookup ip s.shedder.connections_per_ip)) [
      | inl o ↦ ground (arith, h.counted ip)
      | inr (v, o) ↦
          let is : v ≡ pos (suc n) = rw (o, e) at (h.counted ip) in
          rw (o, release_connection, is)
            (put_count max s ip n (set ip n s.live) (omega (arith, h.few ip, e)) (λ other. refl) h)
    ]
Step-IsCounted max {s} p q cleans h = record {
  limit = h.limit;
  distinct = keep_values-IsDistinct _ s.shedder.connections_per_ip h.distinct;
  counted = λ other. ground (
    arith,
    h.counted other,
    lookup-keep_values other (λ n. not (eqb_ℤ n (pos 0))) s.shedder.connections_per_ip h.distinct,
  );
  few = h.few;
}

-- With a positive limit, whatever the order in which connections come, are refused, are closed and
-- idle counters are cleaned up: as long as only connections that were let stay are released, the
-- counter of every address is the number of its open connections, at most the limit.
pub Reach-IsCounted :
    (max : ℕ) {s t : System}
    → 0 < max
    → max ≤ max_int
    → IsCounted max s
    → Reach s t
    → IsCounted max t
Reach-IsCounted max p q h here = h
Reach-IsCounted max p q h (next r st) = Step-IsCounted max p q st (Reach-IsCounted max p q h r)

new_refused :
    (max c : ℕ) (ls : LoadShedder) (ip : String)
    → 0 < max
    → ls.max_connections_per_ip ≡ pos max
    → str_eq ip "" ≡ false
    → count ip ls ≡ pos c
    → max ≤ c
    → conn_state_handler ip state_new ls ≡ (put ip c ls, true)
unfolding conn_state_handler track_connection
new_refused max c ls ip p limit named is b = ground arith

new_accepted :
    (max c : ℕ) (ls : LoadShedder) (ip : String)
    → max ≤ max_int
    → ls.max_connections_per_ip ≡ pos max
    → str_eq ip "" ≡ false
    → count ip ls ≡ pos c
    → c < max
    → conn_state_handler ip state_new ls ≡ (put ip (suc c) ls, false)
unfolding conn_state_handler track_connection
new_accepted max c ls ip q limit named is b = ground arith

closed_released :
    (max c : ℕ) (ls : LoadShedder) (ip : String)
    → 0 < max
    → ls.max_connections_per_ip ≡ pos max
    → str_eq ip "" ≡ false
    → count ip ls ≡ pos (suc c)
    → conn_state_handler ip state_closed ls ≡ (put ip c ls, false)
unfolding conn_state_handler release_connection
closed_released max c ls ip p limit named is = ground arith

count-put : (ip : String) (n : ℕ) (ls : LoadShedder) → count ip (put ip n ls) ≡ pos n
count-put ip n ls = rw (lookup-insert_self ip (pos n) ls.connections_per_ip) refl

-- The handler releases refused connections too: an address with `max` open connections, to which one
-- more connects (it is refused, and its closing is reported), can connect once more and stay, with
-- the earlier ones still open, though they and it are more than the limit.
pub refused_frees_place :
    (max : ℕ) (s : System) (ip : String)
    → 0 < max
    → max ≤ max_int
    → IsCounted max s
    → s.live ip ≡ max
    → str_eq ip "" ≡ false
    → let (s1, closed) = conn_state_handler ip state_new s.shedder in
      let s2 = (conn_state_handler ip state_closed s1).0 in
      let (s3, closed_again) = conn_state_handler ip state_new s2 in
      (closed ≡ true)
      × (count ip s2 ≡ pos (max - 1))
      × (closed_again ≡ false)
      × (count ip s3 ≡ pos max)
refused_frees_place zero s ip p q h full named = ground arith
refused_frees_place (suc m) s ip p q h full named =
    let ls = s.shedder in
    let s1 = put ip (suc m) ls in
    let s2 = put ip m s1 in
    rw
      (
        new_refused (suc m) (suc m) ls ip p h.limit named (h.counted ip ∙ ap pos full)
            (omega arith),
        closed_released (suc m) m s1 ip p h.limit named (count-put ip (suc m) ls),
        new_accepted (suc m) m s2 ip q h.limit named (count-put ip m s1) (omega arith),
      )
      (refl, count-put ip m s1 ∙ ap pos (omega arith), refl, count-put ip (suc m) s2)
