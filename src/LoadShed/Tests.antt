-- ===== src/LoadShed/Tests.antt =====
-- internal/server/loadshed.go: runs of the model, and the theorems at concrete shedders.
use resillm.Common.{ℕ, suc, ◌≡◌, refl, some, arith, pos, lookup, insert}
use resillm.Errors.{err, context_canceled}
use resillm.LoadShed.{
  LoadShedder, new_load_shedder, should_shed, begin, middleware, overloaded, served,
  track_connection, get_ip_from_conn,
}
use resillm.LoadShed.Requests
use resillm.LoadShed.Requests.{Reach-IsLimited, overlap_passes_limit}
use resillm.LoadShed.Connections
use resillm.LoadShed.Connections.{count, Reach-IsCounted, refused_frees_place}

abbrev shedder : LoadShedder
shedder = new_load_shedder (pos 2) (pos 2)

busy_refuses : (middleware (λ n. (n, suc n)) 7 (begin (begin shedder))).0 ≡ overloaded
unfolding middleware begin new_load_shedder should_shed
busy_refuses = refl

idle_serves : (middleware (λ n. (n, suc n)) 7 shedder).0 ≡ served 7
unfolding middleware begin new_load_shedder should_shed
idle_serves = refl

bare_address : get_ip_from_conn (λ s. err context_canceled) (some "pipe") ≡ "pipe"
unfolding get_ip_from_conn
bare_address = refl

abbrev quiet : Requests.System
quiet = record { shedder = shedder; passed = 0; serving = 0 }

served_once : Requests.Reach 1 quiet (record { shedder = begin shedder; passed = 0; serving = 1 })
unfolding should_shed begin new_load_shedder
served_once =
    Requests.next (Requests.next Requests.here (Requests.passes refl (omega arith)))
      (Requests.begins 0 refl (omega arith))

Reach-IsLimited_example :
    Requests.IsLimited 2 1 (record { shedder = begin shedder; passed = 0; serving = 1 })
unfolding new_load_shedder
Reach-IsLimited_example = Reach-IsLimited 2 1 (omega arith) (ground arith) served_once

abbrev nobody : Connections.System
nobody = record { shedder = shedder; live = λ ip. 0 }

nobody-IsCounted : Connections.IsCounted 2 nobody
unfolding new_load_shedder lookup
nobody-IsCounted = record {
  limit = refl;
  distinct = tt;
  counted = λ ip. refl;
  few = λ ip. omega arith;
}

abbrev come : ℕ → Connections.System → Connections.System
come n s = record {
  shedder = (track_connection "10.0.0.1" s.shedder).0;
  live = Connections.set "10.0.0.1" n s.live;
}

both : Connections.Reach nobody (come 2 (come 1 nobody))
unfolding track_connection new_load_shedder lookup insert
both =
    Connections.next (Connections.next Connections.here (Connections.accepts "10.0.0.1" refl))
      (Connections.accepts "10.0.0.1" refl)

Reach-IsCounted_example : Connections.IsCounted 2 (come 2 (come 1 nobody))
Reach-IsCounted_example = Reach-IsCounted 2 (omega arith) (omega arith) nobody-IsCounted both

full-IsCounted : Connections.IsCounted 2 (come 2 (come 1 nobody))
full-IsCounted = Reach-IsCounted 2 (omega arith) (omega arith) nobody-IsCounted both
