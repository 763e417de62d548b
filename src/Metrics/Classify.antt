-- ===== src/Metrics/Classify.antt =====
-- internal/metrics/collector.go, classifyError, contains and classifyHTTPStatus, with the texts of
-- errors: internal/providers/provider.go, Error, and the context's two.
use Prim.Native.String.{◌++◌}
use resillm.Common.{
  ℕ, zero, suc, ◌/◌, ◌%◌, String, Bool, true, false, not, ◌&&◌, Option, none, some, List, [], ◌∷◌,
  if◌then◌else◌, ltb, ◌==◌, str_eq, ℤ, pos, negsuc, leb_ℤ, ltb_ℤ,
}
use resillm.Errors.{Error, provider_error, context_canceled, deadline_exceeded, other}
use resillm.Metrics.Occurs.{occurs}

digit : ℕ → String
digit d =
    if d == 0
    then "0"
    else if d == 1
    then "1"
    else if d == 2
    then "2"
    else if d == 3
    then "3"
    else if d == 4
    then "4"
    else if d == 5
    then "5"
    else if d == 6
    then "6"
    else if d == 7
    then "7"
    else if d == 8
    then "8"
    else "9"

-- The digits of `n`, with at most `fuel` of them; a number has no more digits than itself and one.
digits : ℕ → ℕ → String
unfolding digit
digits zero n = ""
digits (suc fuel) n =
    let more = digits fuel (n / 10) ++ digit (n % 10) in if ltb n 10 then digit n else more

-- `%d` of an int.
unfoldable pub decimal : ℤ → String
unfolding digits
decimal (pos n) = digits 20 n
decimal (negsuc n) = "-" ++ digits 20 (suc n)

-- `err.Error()`.
unfoldable pub error_text : Error → String
unfolding decimal
error_text (provider_error e) =
    e.provider ++ (" error (status " ++ (decimal e.code ++ ("): " ++ e.body)))
error_text context_canceled = "context canceled"
error_text deadline_exceeded = "context deadline exceeded"
error_text (other r s text) = text

-- The loop over the texts that are sought, of which an empty one is not found.
unfoldable pub contains : String → List String → Bool
unfolding occurs
contains s [] = false
contains s (substr ∷ substrs) =
    if not (str_eq substr "") && occurs substr s then true else contains s substrs

unfoldable pub classify_text : String → String
unfolding contains
classify_text text =
    if contains text ("timeout" ∷ [])
    then "timeout"
    else if contains text ("429" ∷ [])
    then "rate_limit"
    else if contains text ("500" ∷ ("502" ∷ ("503" ∷ ("504" ∷ []))))
    then "server_error"
    else if contains text ("connection" ∷ [])
    then "connection"
    else "unknown"

unfoldable pub classify_error : Option Error → String
unfolding error_text classify_text
classify_error none = "none"
classify_error (some e) = classify_text (error_text e)

unfoldable pub classify_http_status : ℤ → String
classify_http_status status =
    if leb_ℤ (pos 200) status && ltb_ℤ status (pos 300)
    then "2xx"
    else if leb_ℤ (pos 300) status && ltb_ℤ status (pos 400)
    then "3xx"
    else if leb_ℤ (pos 400) status && ltb_ℤ status (pos 500)
    then "4xx"
    else if leb_ℤ (pos 500) status
    then "5xx"
    else "unknown"
