-- ===== src/Server/Address.antt =====
-- internal/server/server.go: getClientIP, with strings.Index, LastIndex and TrimSpace.
use Prim.Native.Char.{Char, code}
use Prim.Native.String.{[], ◌∷◌}
use resillm.Common.{
  ℕ, String, Bool, not, ◌&&◌, ◌||◌, Option, none, some, if◌then◌else◌, leb, ◌==◌, str_eq, Map,
  lookup,
}

-- `xff[:idx]` for the first place of a character, if it has one.
unfoldable pub before_first : ℕ → String → Option String
before_first n [] = none
before_first n (c ∷ s) =
    let rest = before_first n s in
    if code c == n then some [] else elim rest [ none ↦ none | some t ↦ some (c ∷ t) ]

-- `ip[:idx]` for the last place of a character.
unfoldable pub before_last : ℕ → String → Option String
before_last n [] = none
before_last n (c ∷ s) = elim (before_last n s) [
  | none ↦ if code c == n then some [] else none
  | some t ↦ some (c ∷ t)
]

-- unicode.IsSpace.
is_space : Char → Bool
is_space c =
    let n = code c in
    (leb 9 n && leb n 13)
    || ((n == 32)
        || ((n == 133)
            || ((n == 160)
                || ((n == 5760)
                    || ((leb 8192 n && leb n 8202)
                        || ((n == 8232)
                            || ((n == 8233) || ((n == 8239) || ((n == 8287) || (n == 12288))))))))))

trim_left : String → String
unfolding is_space
trim_left [] = []
trim_left (c ∷ s) = let rest = trim_left s in if is_space c then rest else c ∷ s

trim_right : String → String
unfolding is_space
trim_right [] = []
trim_right (c ∷ s) =
    let rest = trim_right s in if str_eq rest "" && is_space c then [] else c ∷ rest

unfoldable pub trim_space : String → String
unfolding trim_left trim_right
trim_space s = trim_left (trim_right s)

-- `r.Header.Get`, by the header's canonical name.
unfoldable pub header : String → Map String → String
header name headers = elim (lookup name headers) [ none ↦ "" | some v ↦ v ]

-- From the request's headers and its RemoteAddr.
unfoldable pub get_client_ip : Map String → String → String
unfolding header before_first before_last trim_space
get_client_ip headers remote_addr =
    let xff = header "X-Forwarded-For" headers in
    let xri = header "X-Real-Ip" headers in
    if not (str_eq xff "")
    then elim (before_first b',' xff) [ some t ↦ trim_space t | none ↦ trim_space xff ]
    else if not (str_eq xri "")
    then xri
    else elim (before_last b':' remote_addr) [ some t ↦ t | none ↦ remote_addr ]
