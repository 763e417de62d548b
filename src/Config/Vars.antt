-- ===== src/Config/Vars.antt =====
-- internal/config/config.go: the pattern `\$\{([^}]+)\}` of expandEnvVars and
-- validateNoUnexpandedVars, and the replacement of its matches.
pub mod Expanded
use Prim.Native.Char.{Char, code}
use Prim.Native.String.{String, [], ◌∷◌, ◌++◌, count}
use text.Mathlib.TextLemmas.{nil-append, cons-append, length-cons, length-append, append_assoc}
use resillm.Common.{
  ℕ, zero, suc, ◌+◌, ◌≡◌, ◌≢◌, refl, ap, ◌∙◌, Bool, true, false, Option, none, some, arith,
  if◌then◌else◌, ◌==◌, str_eq,
}

-- The text before the first `}`, if there is one.
unfoldable pub before_close : String → Option String
before_close [] = none
before_close (c ∷ s) =
    if code c == b'}'
    then some []
    else elim (before_close s) [ none ↦ none | some name ↦ some (c ∷ name) ]

-- `[^}]+\}` at the beginning of a text: the name.
name_at : String → Option String
unfolding before_close
name_at s = elim (before_close s) [
  | none ↦ none
  | some name ↦ if count name == 0 then none else some name
]

after_brace : String → Option String
unfolding name_at
after_brace [] = none
after_brace (c ∷ s) = if code c == b'{' then name_at s else none

-- A match at the beginning of a text: the name of the variable.
unfoldable pub var_at : String → Option String
unfolding after_brace
var_at [] = none
var_at (c ∷ s) = if code c == b'$' then after_brace s else none

-- `MatchString`.
unfoldable pub has_var : String → Bool
unfolding var_at
has_var [] = false
has_var (c ∷ s) = elim (var_at (c ∷ s)) [ some name ↦ true | none ↦ has_var s ]

-- What a match becomes; `getenv` returns the empty text for a variable that is not set.
unfoldable pub value_of : (String → String) → String → String
value_of getenv name = let val = getenv name in if str_eq val [] then "${" ++ (name ++ "}") else val

-- `expandEnvVars`, after the first `skip` characters, which a match has taken.
expand_from : (String → String) → ℕ → String → String
unfolding var_at value_of
expand_from getenv skip [] = []
expand_from getenv zero (c ∷ s) = elim (var_at (c ∷ s)) [
  | some name ↦ value_of getenv name ++ expand_from getenv (count name + 2) s
  | none ↦ c ∷ expand_from getenv zero s
]
expand_from getenv (suc skip) (c ∷ s) = expand_from getenv skip s

unfoldable pub expand_env_vars : (String → String) → String → String
unfolding expand_from
expand_env_vars getenv s = expand_from getenv 0 s

-- Characters that a match has taken.
expand_from-skip :
    (getenv : String → String) (taken s : String)
    → expand_from getenv (count taken) (taken ++ s) ≡ expand_from getenv 0 s
unfolding expand_from
expand_from-skip getenv [] s = rw (nil-append s) refl
expand_from-skip getenv (c ∷ taken) s =
    rw (cons-append c taken s, length-cons c taken) (expand_from-skip getenv taken s)

-- No `}` occurs.
abbrev pub IsName : String → Type 0
IsName [] = Unit
IsName (c ∷ s) = (code c ≢ b'}') × IsName s

before_close-name : (name s : String) → IsName name → before_close (name ++ ("}" ∷ s)) ≡ some name
unfolding before_close
before_close-name [] s h = rw (nil-append ("}" ∷ s)) refl
before_close-name (c ∷ name) s h =
    rw (cons-append c name ("}" ∷ s)) (ground (arith, before_close-name name s h.1, h.0))

-- The rest of a match after its first character.
abbrev rest_of : String → String
rest_of name = "{" ∷ (name ++ ("}" ∷ []))

rest_of-append : (name s : String) → rest_of name ++ s ≡ "{" ∷ (name ++ ("}" ∷ s))
rest_of-append name s =
    cons-append "{" (name ++ ("}" ∷ [])) s
    ∙ ap (λ t. "{" ∷ t) (append_assoc name ("}" ∷ []) s)
    ∙ ap (λ t. "{" ∷ (name ++ t)) (cons-append "}" [] s ∙ ap (λ t. "}" ∷ t) (nil-append s))

count-rest_of : (name : String) → count (rest_of name) ≡ count name + 2
count-rest_of name =
    length-cons "{" (name ++ ("}" ∷ [])) ∙ ap suc (length-append name ("}" ∷ [])) ∙ omega arith

var_at-name :
    (name s : String)
    → IsName name
    → count name ≢ 0
    → var_at ("$" ∷ ("{" ∷ (name ++ ("}" ∷ s)))) ≡ some name
unfolding var_at after_brace name_at
var_at-name name s h ne = ground (arith, before_close-name name s h, ne)

expand_from-match :
    (getenv : String → String) (c : Char) (name s : String)
    → var_at (c ∷ s) ≡ some name
    → expand_from getenv 0 (c ∷ s) ≡ value_of getenv name ++ expand_from getenv (count name + 2) s
unfolding expand_from
expand_from-match getenv c name s e = rw (e, expand_from)

-- A reference to a variable, whose name is not empty and without `}`, becomes the variable's value
-- if that is set and not empty, and stays as it is otherwise; a value is not expanded again, and what
-- follows the reference is expanded.
expand_env_vars_match :
    (getenv : String → String) (name s : String)
    → IsName name
    → count name ≢ 0
    → expand_env_vars getenv ("$" ∷ ("{" ∷ (name ++ ("}" ∷ s))))
      ≡ value_of getenv name ++ expand_env_vars getenv s
unfolding expand_env_vars
expand_env_vars_match getenv name s h ne =
    expand_from-match getenv "$" name ("{" ∷ (name ++ ("}" ∷ s))) (var_at-name name s h ne)
    ∙ ap (λ t. value_of getenv name ++ t)
        (rw (← rest_of-append name s, ← count-rest_of name)
          (expand_from-skip getenv (rest_of name) s))
