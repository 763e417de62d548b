-- ===== src/Server/Middleware/Tests.antt =====
-- internal/server/server.go: requests through the middleware, with handlers that count their calls.
use resillm.Common.{
  ℕ, suc, ◌≡◌, ◌≢◌, refl, String, str_eq, false, none, some, [], ◌∷◌, lookup, fixed, pos, arith,
  eq_iff,
}
use resillm.RateLimit.Tests.{bucket, one_shard, empty}
use resillm.Metrics
use resillm.Metrics.Calls.{record_http_request, samples_by, holding}
use resillm.Metrics.{new_collector, with_label_values, arity}
use resillm.Metrics.Tests.{settings}
use resillm.Server.Address.{header, get_client_ip}
use resillm.Server.Middleware.{Request, Response, Front, Handler, serve, security_headers}
use resillm.Server.Middleware.Routes.{mux}
use resillm.Server.Middleware.Admin.{with_reload, admin_key_guards_reload}
use resillm.Server.Middleware.Counted.{IsServed, serve-IsServed}

-- The handlers' world is a clock that each call moves on.
abbrev calls : Handler fixed ℕ ℕ
calls req headers s =
    some (
      record { status = pos 200; headers = headers; body = "{}" },
      record s { inner = suc s.inner },
    )

abbrev same_clock : ℕ → ℕ
same_clock w = w

abbrev secret : ℕ → String
secret w = "secret"

abbrev front : Front fixed ℕ ℕ
front = record {
  rate_limiter = some empty;
  load_shedder = none;
  metrics = new_collector fixed settings;
  inner = 7;
}

abbrev reload_request : Request
reload_request = record {
  method = "POST";
  path = "/admin/reload";
  headers = ("X-Forwarded-For", "10.0.0.9, 10.0.0.1") ∷ [];
  remote_addr = "10.0.0.1:5000";
}

claimed_first : get_client_ip reload_request.headers "10.0.0.1:5000" ≡ "10.0.0.9"
unfolding get_client_ip lookup
claimed_first = refl

peer : get_client_ip [] "10.0.0.1:5000" ≡ "10.0.0.1"
unfolding get_client_ip lookup
peer = refl

different : (s t : String) → str_eq s t ≡ false → s ≢ t
different s t h e = let same = (eq_iff s t).1 e in ground (arith, h, same)

set : secret 7 ≢ ""
set = different "secret" "" refl

wrong : header "X-Admin-Key" reload_request.headers ≢ secret 7
unfolding header lookup
wrong = different "" "secret" refl

admin_key_guards_reload_example :
    serve bucket one_shard same_clock
      (mux secret (with_reload calls (λ r. calls)))
      reload_request
      front
    ≡ serve bucket one_shard same_clock
        (mux secret (with_reload (λ req headers s. none) (λ r. calls)))
        reload_request
        front
admin_key_guards_reload_example =
    admin_key_guards_reload bucket one_shard same_clock secret calls (λ req headers s. none)
      (λ r. calls) reload_request front set wrong

claims : header "X-Forwarded-For" reload_request.headers ≢ ""
unfolding header lookup
claims = different "10.0.0.9, 10.0.0.1" "" refl

abbrev open_front : Front fixed ℕ ℕ
open_front = record front { rate_limiter = none }

abbrev answered : Response × Front fixed ℕ ℕ
answered = (
  record { status = pos 404; headers = security_headers []; body = "404 page not found" },
  record open_front {
    metrics =
        holding settings (samples_by (record_http_request "GET" "/admin" (pos 404) (pos 0)) []) [];
  },
)

abbrev missing : Handler fixed ℕ ℕ
missing req headers s =
    some (record { status = pos 404; headers = headers; body = "404 page not found" }, s)

served :
    serve bucket one_shard same_clock missing
      (record reload_request { method = "GET"; path = "/admin" })
      open_front
    ≡ some answered
unfolding serve new_collector Metrics.record_http_request with_label_values arity
served = refl

serve-IsServed_example :
    IsServed bucket one_shard same_clock missing
      (record reload_request { method = "GET"; path = "/admin" })
      open_front
      answered
serve-IsServed_example =
    serve-IsServed bucket one_shard same_clock missing
      (record reload_request { method = "GET"; path = "/admin" }) open_front answered served
