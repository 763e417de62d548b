-- ===== src/Server/Sanitize.antt =====
-- internal/server/handlers.go: sanitizeError with its two patterns.
pub mod Clean
mod Tests
use Prim.Native.Char.{Char, code}
use Prim.Native.String.{[], ◌∷◌, ◌++◌, count}
use resillm.Common.{
  strip_prefix, ℕ, zero, suc, ◌+◌, ◌-◌, String, Bool, true, false, ◌&&◌, ◌||◌, Option, none, some,
  if◌then◌else◌, ltb, leb, ◌==◌, ◌≡◌, refl,
}

-- `[a-zA-Z0-9]`, and with the dash.
unfoldable pub is_alphanumeric : Char → Bool
is_alphanumeric c =
    let n = code c in
    (leb b'a' n && leb n b'z') || ((leb b'A' n && leb n b'Z') || (leb b'0' n && leb n b'9'))

unfoldable pub is_key_char : Char → Bool
unfolding is_alphanumeric
is_key_char c = is_alphanumeric c || (code c == b'-')

-- How many characters at the beginning are of a class: a greedy `+` or `{n,}`.
unfoldable pub run_length : (Char → Bool) → String → ℕ
run_length p [] = 0
run_length p (c ∷ s) = let n = run_length p s in if p c then suc n else 0

-- The length of a match at the beginning of a text, of a prefix and then at least `least` characters
-- of a class.
unfoldable pub key_at : String → (Char → Bool) → ℕ → String → Option ℕ
unfolding run_length
key_at prefix p least s = elim (strip_prefix prefix s) [
  | none ↦ none
  | some rest ↦ let n = run_length p rest in if leb least n then some (count prefix + n) else none
]

-- `sk-[a-zA-Z0-9]{20,}`.
unfoldable pub openai_key_at : String → Option ℕ
unfolding key_at is_alphanumeric
openai_key_at s = key_at "sk-" is_alphanumeric 20 s

-- `sk-ant-[a-zA-Z0-9-]+`.
unfoldable pub anthropic_key_at : String → Option ℕ
unfolding key_at is_key_char
anthropic_key_at s = key_at "sk-ant-" is_key_char 1 s

-- `ReplaceAllString(msg, "[REDACTED]")`, after the first `skip` characters, which a match has taken.
unfoldable pub redact_from : (String → Option ℕ) → ℕ → String → String
redact_from match skip [] = []
redact_from match (suc skip) (c ∷ s) = redact_from match skip s
redact_from match zero (c ∷ s) = elim (match (c ∷ s)) [
  | some n ↦ "[REDACTED]" ++ redact_from match (n - 1) s
  | none ↦ c ∷ redact_from match zero s
]

unfoldable pub redact : (String → Option ℕ) → String → String
unfolding redact_from
redact match s = redact_from match 0 s

-- `sanitizeError`, of the error's text.
unfoldable pub sanitize : Option String → String
unfolding redact openai_key_at anthropic_key_at
sanitize none = ""
sanitize (some text) = redact anthropic_key_at (redact openai_key_at text)
