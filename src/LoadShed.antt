-- ===== src/LoadShed.antt =====
-- internal/server/loadshed.go. The goroutine and the channel that run and stop the clean-up are left
-- out: `cleanup` is what one tick does.
pub mod Requests
pub mod Connections
mod Tests
use resillm.Common.{
  ℕ, zero, suc, ◌+◌, String, str_eq, Bool, true, false, not, Option, none, some, List, [], ◌∷◌,
  if◌then◌else◌, ℤ, pos, negsuc, inc, dec, leb_ℤ, ltb_ℤ, eqb_ℤ, Map, lookup, insert, keep_values,
}
use resillm.Errors.{Result, ok, err}

pub record LoadShedder : Type 0 where
  pub max_active_requests : ℤ
  pub max_connections_per_ip : ℤ
  pub active_requests : ℤ
  pub connections_per_ip : Map ℤ
  pub total_shed : ℤ
  pub total_accepted : ℤ

unfoldable pub new_load_shedder : ℤ → ℤ → LoadShedder
new_load_shedder max_active max_per_ip = record {
  max_active_requests = max_active;
  max_connections_per_ip = max_per_ip;
  active_requests = pos 0;
  connections_per_ip = [];
  total_shed = pos 0;
  total_accepted = pos 0;
}

-- `shouldShed`.
unfoldable pub should_shed : LoadShedder → Bool
should_shed ls =
    if leb_ℤ ls.max_active_requests (pos 0)
    then false
    else leb_ℤ ls.max_active_requests ls.active_requests

-- The parts of `Middleware`'s handler that change the counters: a refusal, what comes before the next
-- handler, and what is deferred until after it.
unfoldable pub shed : LoadShedder → LoadShedder
shed ls = record ls { total_shed = inc ls.total_shed }

unfoldable pub begin : LoadShedder → LoadShedder
begin ls = record ls {
  active_requests = inc ls.active_requests;
  total_accepted = inc ls.total_accepted;
}

unfoldable pub finish : LoadShedder → LoadShedder
finish ls = record ls { active_requests = dec ls.active_requests }

-- What a client is sent.
pub data Answer (A : Type 0) : Type 0 where
  -- Status 503 with `Retry-After: 1`.
  overloaded : Answer A
  served : A → Answer A

-- `Middleware`, around a handler that changes a state `W` of the world, for a request during which
-- no other changes the shedder.
unfoldable pub middleware :
    {W A : Type 0} → (W → A × W) → W → LoadShedder → Answer A × W × LoadShedder
unfolding should_shed shed begin finish
middleware next w ls =
    if should_shed ls
    then (overloaded, w, shed ls)
    else (let (a, w') = next w in (served a, w', finish (begin ls)))

-- The value of a counter, a new one if there is none.
abbrev pub value : Option ℤ → ℤ
value none = pos 0
value (some n) = n

-- `TrackConnection`: whether the connection may stay.
unfoldable pub track_connection : String → LoadShedder → LoadShedder × Bool
track_connection ip ls =
    if leb_ℤ ls.max_connections_per_ip (pos 0)
    then (ls, true)
    else (let counter = value (lookup ip ls.connections_per_ip) in
        if leb_ℤ ls.max_connections_per_ip counter
        then (record ls { connections_per_ip = insert ip counter ls.connections_per_ip }, false)
        else (
          record ls { connections_per_ip = insert ip (inc counter) ls.connections_per_ip },
          true,
        ))

unfoldable pub release_connection : String → LoadShedder → LoadShedder
release_connection ip ls = elim (lookup ip ls.connections_per_ip) [
  | none ↦ ls
  | some n ↦ record ls { connections_per_ip = insert ip (dec n) ls.connections_per_ip }
]

-- net/http's states of a connection.
pub data ConnState : Type 0 where
  state_new state_active state_idle state_hijacked state_closed : ConnState

-- `getIPFromConn`, with the text of the remote address, if there is one; `split_host_port` is the
-- host of net.SplitHostPort.
unfoldable pub get_ip_from_conn : (String → Result String) → Option String → String
get_ip_from_conn split_host_port none = ""
get_ip_from_conn split_host_port (some addr) = elim (split_host_port addr) [
  | ok host ↦ host
  | err e ↦ addr
]

-- The `switch` over the new state: whether the handler closes the connection.
conn_state_by : String → ConnState → LoadShedder → LoadShedder × Bool
unfolding track_connection release_connection
conn_state_by ip state_new ls = let (ls', stays) = track_connection ip ls in (ls', not stays)
conn_state_by ip state_active ls = (ls, false)
conn_state_by ip state_idle ls = (ls, false)
conn_state_by ip state_hijacked ls = (release_connection ip ls, false)
conn_state_by ip state_closed ls = (release_connection ip ls, false)

-- `ConnStateHandler`, for a connection whose address is `ip`.
unfoldable pub conn_state_handler : String → ConnState → LoadShedder → LoadShedder × Bool
unfolding conn_state_by
conn_state_handler ip state ls =
    if leb_ℤ ls.max_connections_per_ip (pos 0)
    then (ls, false)
    else (if str_eq ip "" then (ls, false) else conn_state_by ip state ls)

pub record LoadShedderStats : Type 0 where
  pub active_requests : ℤ
  pub max_active_requests : ℤ
  pub max_connections_per_ip : ℤ
  pub total_shed : ℤ
  pub total_accepted : ℤ

unfoldable pub stats : LoadShedder → LoadShedderStats
stats ls = record {
  active_requests = ls.active_requests;
  max_active_requests = ls.max_active_requests;
  max_connections_per_ip = ls.max_connections_per_ip;
  total_shed = ls.total_shed;
  total_accepted = ls.total_accepted;
}

-- One tick of `cleanupLoop`.
unfoldable pub cleanup : LoadShedder → LoadShedder
cleanup ls = record ls {
  connections_per_ip = keep_values (λ n. not (eqb_ℤ n (pos 0))) ls.connections_per_ip;
}
