-- ===== src/Server/Middleware/Routes.antt =====
-- internal/server/server.go: the patterns that NewWithPath registers, and what net/http's ServeMux does
-- with a request: a pattern with GET takes HEAD as well, a path that has only other methods is
-- answered by 405, any other by 404, also a path that is not clean, where ServeMux redirects.
use resillm.Common.{
  String, str_eq, Bool, ◌&&◌, ◌||◌, some, List, [], ◌∷◌, if◌then◌else◌, pos, FloatOps,
}
use resillm.Server.Middleware.{Handler, http_error, admin_auth_middleware}

pub data Route : Type 0 where
  chat_completions completions embeddings health providers budget models admin_reload : Route

abbrev pub routes : List (String × String × Route)
routes =
    ("POST", "/v1/chat/completions", chat_completions)
    ∷ ("POST", "/v1/completions", completions)
    ∷ ("POST", "/v1/embeddings", embeddings)
    ∷ ("GET", "/health", health)
    ∷ ("GET", "/v1/providers", providers)
    ∷ ("GET", "/v1/budget", budget)
    ∷ ("GET", "/v1/models", models)
    ∷ ("POST", "/admin/reload", admin_reload)
    ∷ []

pub data Match : Type 0 where
  matched : Route → Match
  method_not_allowed not_found : Match

abbrev takes : String → String → Bool
takes pattern method = str_eq pattern method || (str_eq pattern "GET" && str_eq method "HEAD")

unfoldable pub match_route : List (String × String × Route) → String → String → Match
match_route [] method path = not_found
match_route ((pattern, at, route) ∷ rest) method path = elim (match_route rest method path) [
  | matched r ↦ if str_eq at path && takes pattern method then matched route else matched r
  | method_not_allowed ↦
      if str_eq at path && takes pattern method then matched route else method_not_allowed
  | not_found ↦
      if str_eq at path
      then (if takes pattern method then matched route else method_not_allowed)
      else not_found
]

module _ {F : FloatOps} {B W : Type 0} where
  -- The handlers by their routes.
  unfoldable pub dispatch : (Route → Handler F B W) → Match → Handler F B W
  unfolding http_error
  dispatch handlers (matched route) req headers s = handlers route req headers s
  dispatch handlers method_not_allowed req headers s =
      some (http_error (pos 405) "Method Not Allowed" headers, s)
  dispatch handlers not_found req headers s =
      some (http_error (pos 404) "404 page not found" headers, s)

  -- With the authentication around the one that reloads the configuration.
  unfoldable pub protect : (W → String) → (Route → Handler F B W) → Route → Handler F B W
  protect admin_api_key handlers admin_reload =
      admin_auth_middleware admin_api_key (handlers admin_reload)
  protect admin_api_key handlers route = handlers route

  unfoldable pub mux : (W → String) → (Route → Handler F B W) → Handler F B W
  unfolding match_route dispatch protect
  mux admin_api_key handlers req headers s =
      dispatch (protect admin_api_key handlers) (match_route routes req.method req.path) req headers
        s
