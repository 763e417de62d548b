-- ===== src/Config/Vars/Expanded.antt =====
-- internal/config/config.go: expandEnvVars on a whole text, against a relation that does not search.
use Prim.Native.Char.{Char, code}
use Prim.Native.String.{String, [], ◌∷◌, ◌++◌, count}
use text.Mathlib.TextLemmas.{nil-append, cons-append, length-cons, length-append}
use text.Mathlib.TextEquality.{Char-path}
use resillm.Common.{
  ℕ, zero, suc, ◌+◌, ◌≤◌, ◌≡◌, ◌≢◌, refl, sym, ap, subst, ◌∙◌, ◌⊎◌, inl, inr, none, some, none≢some,
  some-inj, arith, ◌==◌, str_eq, eq_iff, Bool-cases, Option-cases,
}
use resillm.Config.Vars.{
  before_close, name_at, after_brace, var_at, value_of, expand_from, expand_env_vars, IsName,
  var_at-name, expand_env_vars_match,
}

-- A reference to a variable, and what follows it.
abbrev pub reference : String → String → String
reference name s = "$" ∷ ("{" ∷ (name ++ ("}" ∷ s)))

-- The value, where it is set and not empty, and otherwise the reference itself.
abbrev pub IsValue : (String → String) → String → String → Type 0
IsValue getenv name v =
    ((getenv name ≢ "") × (v ≡ getenv name)) ⊎ ((getenv name ≡ "") × (v ≡ "${" ++ (name ++ "}")))

-- No reference stands at the beginning.
abbrev pub StartsPlain : String → Type 0
StartsPlain s = (name t : String) → IsName name → count name ≢ 0 → s ≢ reference name t

-- The second text is the first with its references replaced, from left to right.
pub data Expands (getenv : String → String) : String → String → Type 0 where
  nothing : Expands getenv [] []
  referred :
      {s out : String} (name v : String)
      → IsName name
      → count name ≢ 0
      → IsValue getenv name v
      → Expands getenv s out
      → Expands getenv (reference name s) (v ++ out)
  plain :
      {s out : String} (c : Char)
      → StartsPlain (c ∷ s)
      → Expands getenv s out
      → Expands getenv (c ∷ s) (c ∷ out)

value_of-IsValue :
    (getenv : String → String) (name : String) → IsValue getenv name (value_of getenv name)
unfolding value_of
value_of-IsValue getenv name = elim (Bool-cases (str_eq (getenv name) [])) [
  | inl e ↦ inr ((eq_iff (getenv name) []).0 e, rw (e, value_of) refl)
  | inr e ↦ inl (λ h. ground (arith, e, h, eq_iff (getenv name) []), rw (e, value_of) refl)
]

-- What was found before the first `}`.
before_close-some :
    (s name : String)
    → before_close s ≡ some name
    → IsName name × (t : String) × (s ≡ name ++ ("}" ∷ t))
unfolding before_close
before_close-some [] name h = absurd (none≢some name h)
before_close-some (c ∷ s) name h = elim (Bool-cases (code c == b'}')) [
  | inl e ↦
      let at : c ≡ "}" = Char-path c "}" (ground (arith, e)) in
      subst Found (some-inj [] name (rw (e, before_close) at h))
        (tt, s, ap (λ d. d ∷ s) at ∙ sym (nil-append ("}" ∷ s)))
  | inr e ↦ elim (Option-cases (before_close s)) [
    | inl n ↦ absurd (none≢some name (rw (e, n, before_close) at h))
    | inr (m, n) ↦
        let (is_name, t, same) = before_close-some s m n in
        subst Found (some-inj (c ∷ m) name (rw (e, n, before_close) at h)) (
          (λ k. ground (arith, e, k), is_name),
          t,
          ap (λ u. c ∷ u) same ∙ sym (cons-append c m ("}" ∷ t)),
        )
  ]
]
  where
    Found : String → Type 0
    Found found = IsName found × (t : String) × (c ∷ s ≡ found ++ ("}" ∷ t))

name_at-some :
    (s name : String)
    → name_at s ≡ some name
    → IsName name × (count name ≢ 0) × (t : String) × (s ≡ name ++ ("}" ∷ t))
unfolding name_at
name_at-some s name h = elim (Option-cases (before_close s)) [
  | inl n ↦ absurd (none≢some name (rw (n, name_at) at h))
  | inr (m, n) ↦ elim (Bool-cases (count m == 0)) [
    | inl e ↦ absurd (none≢some name (rw (n, e, name_at) at h))
    | inr e ↦
        let same = some-inj m name (rw (n, e, name_at) at h) in
        let (is_name, t, at) = before_close-some s m n in
        subst (λ found. IsName found × (count found ≢ 0) × (t : String) × (s ≡ found ++ ("}" ∷ t)))
          same (is_name, λ k. ground (arith, e, k), t, at)
  ]
]

-- What a match says of the text.
var_at-some :
    (s name : String)
    → var_at s ≡ some name
    → IsName name × (count name ≢ 0) × (t : String) × (s ≡ reference name t)
unfolding var_at after_brace
var_at-some [] name h = absurd (none≢some name h)
var_at-some (c ∷ []) name h = ground (arith, h)
var_at-some (c ∷ (d ∷ s)) name h = elim (Bool-cases (code c == b'$')) [
  | inr e ↦ absurd (none≢some name (rw (e, var_at) at h))
  | inl e ↦ elim (Bool-cases (code d == b'{')) [
    | inr k ↦ absurd (none≢some name (rw (e, k, var_at, after_brace) at h))
    | inl k ↦
        let (is_name, ne, t, same) = name_at-some s name (rw (e, k, var_at, after_brace) at h) in
        let dollar : c ≡ "$" = Char-path c "$" (ground (arith, e)) in
        let brace : d ≡ "{" = Char-path d "{" (ground (arith, k)) in
        (is_name, ne, t, (λ i. dollar i ∷ (brace i ∷ same i)))
  ]
]

expand-none :
    (getenv : String → String) (c : Char) (s : String)
    → var_at (c ∷ s) ≡ none
    → expand_env_vars getenv (c ∷ s) ≡ c ∷ expand_env_vars getenv s
unfolding expand_env_vars expand_from
expand-none getenv c s h = rw (h, expand_from) refl

none-StartsPlain : (s : String) → var_at s ≡ none → StartsPlain s
none-StartsPlain s h name t is_name ne e =
    none≢some name (sym h ∙ ap var_at e ∙ var_at-name name t is_name ne)

count-reference : (name t : String) → count (reference name t) ≡ 3 + (count name + count t)
count-reference name t = omega (
  arith,
  length-cons "$" ("{" ∷ (name ++ ("}" ∷ t))),
  length-cons "{" (name ++ ("}" ∷ t)),
  length-append name ("}" ∷ t),
  length-cons "}" t,
)

expand-nil : (getenv : String → String) → expand_env_vars getenv [] ≡ []
unfolding expand_env_vars expand_from
expand-nil getenv = refl

expand_by :
    (getenv : String → String) (n : ℕ) (s : String)
    → count s ≤ n
    → Expands getenv s (expand_env_vars getenv s)
expand_by getenv n [] h = subst (Expands getenv []) (sym (expand-nil getenv)) Expands.nothing
expand_by getenv zero (c ∷ s) h = absurd (omega (arith, h, length-cons c s))
expand_by getenv (suc n) (c ∷ s) h = elim (Option-cases (var_at (c ∷ s))) [
  | inl m ↦ subst (Expands getenv (c ∷ s)) (sym (expand-none getenv c s m)) (
      plain c (none-StartsPlain (c ∷ s) m)
        (expand_by getenv n s (omega (arith, h, length-cons c s))))
  | inr (name, m) ↦
      let (is_name, ne, t, same) = var_at-some (c ∷ s) name m in
      let small : count t ≤ n = omega (arith, h, ap count same, count-reference name t) in
      let here =
        referred name (value_of getenv name) is_name ne (value_of-IsValue getenv name)
          (expand_by getenv n t small) in
      subst (λ u. Expands getenv u (expand_env_vars getenv u)) (sym same)
        (subst (Expands getenv (reference name t))
          (sym (expand_env_vars_match getenv name t is_name ne)) here)
]

-- Any text is expanded from left to right: wherever a reference to a variable stands, which is `${`, a
-- name that is not empty and without `}`, and `}`, it becomes the variable's value if that is
-- set and not empty, and stays as it is otherwise; a value is not expanded again; and every character
-- at which no reference begins stays.
pub expand_env_vars-Expands :
    (getenv : String → String) (s : String) → Expands getenv s (expand_env_vars getenv s)
expand_env_vars-Expands getenv s = expand_by getenv (count s) s (omega arith)
