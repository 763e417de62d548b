-- ===== src/Server/Sanitize/Clean.antt =====
-- internal/server/handlers.go: what sanitizeError leaves in a text.
use Prim.Native.Char.{Char, code}
use Prim.Native.String.{[], ◌∷◌, ◌++◌}
use text.Mathlib.TextLemmas.{nil-append, cons-append}
use resillm.Common.{
  ℕ, zero, suc, ◌-◌, ◌≤◌, ◌<◌, String, Bool, true, false, Option, none, some, ◌==◌, strip_prefix,
  ◌≡◌, refl, sym, ap, ◌∙◌, arith, Bool-cases, Option-cases, inl, inr, subst, ◌↔◌, some-inj,
  none≢some,
}
use resillm.Server.Sanitize.{
  is_alphanumeric, is_key_char, run_length, key_at, openai_key_at, anthropic_key_at, redact_from,
  redact, sanitize,
}

-- No key begins at any place of a text.
abbrev pub IsClean : (String → Option ℕ) → String → Type 0
IsClean match [] = match [] ≡ none
IsClean match (c ∷ s) = (match (c ∷ s) ≡ none) × IsClean match s

bracket : (s : String) → "[REDACTED]" ++ s ≡ "[" ∷ ("REDACTED]" ++ s)
bracket s = cons-append "[" "REDACTED]" s

run_length_stop : (p : Char → Bool) (c : Char) (s : String) → p c ≡ false → run_length p (c ∷ s) ≡ 0
unfolding run_length
run_length_stop p c s h = rw h refl

strip_prefix-other :
    (d : Char) (q : String) (c : Char) (s : String)
    → (code d == code c) ≡ false
    → strip_prefix (d ∷ q) (c ∷ s) ≡ none
unfolding strip_prefix
strip_prefix-other d q c s h = rw h refl

strip_prefix-same :
    (d : Char) (q : String) (c : Char) (s : String)
    → (code d == code c) ≡ true
    → strip_prefix (d ∷ q) (c ∷ s) ≡ strip_prefix q s
unfolding strip_prefix
strip_prefix-same d q c s h = rw h refl

-- The prefix has no such character.
abbrev Lacks : ℕ → String → Type 0
Lacks n [] = Unit
Lacks n (d ∷ q) = ((code d == n) ≡ false) × Lacks n q

module _ (match : String → Option ℕ) where
  redact_from-match :
      (c : Char) (s : String) (n : ℕ)
      → match (c ∷ s) ≡ some n
      → redact_from match 0 (c ∷ s) ≡ "[REDACTED]" ++ redact_from match (n - 1) s
  unfolding redact_from
  redact_from-match c s n e = rw (e, redact_from) refl

  redact_from-none :
      (c : Char) (s : String)
      → match (c ∷ s) ≡ none
      → redact_from match 0 (c ∷ s) ≡ c ∷ redact_from match 0 s
  unfolding redact_from
  redact_from-none c s e = rw (e, redact_from) refl

  -- A run of a class without `[` gets no longer.
  run_length-redact_from :
      (p : Char → Bool)
      → p "[" ≡ false
      → (s : String) → run_length p (redact_from match 0 s) ≤ run_length p s
  unfolding run_length redact_from
  run_length-redact_from p h [] = omega arith
  run_length-redact_from p h (c ∷ s) = elim (Option-cases (match (c ∷ s))) [
    | inl e ↦ rw (redact_from-none c s e) (ground (arith, run_length-redact_from p h s))
    | inr (n, e) ↦
        rw
          (
            redact_from-match c s n e,
            bracket (redact_from match (n - 1) s),
            run_length_stop p "[" ("REDACTED]" ++ redact_from match (n - 1) s) h,
          )
          (omega arith)
  ]

  -- A prefix without `[` that the result has was there before.
  strip_prefix-redact_from :
      (q s rest' : String)
      → Lacks b'[' q
      → strip_prefix q (redact_from match 0 s) ≡ some rest'
      → (rest : String) × (strip_prefix q s ≡ some rest) × (rest' ≡ redact_from match 0 rest)
  unfolding strip_prefix redact_from
  strip_prefix-redact_from [] s rest' l e =
      (s, refl, some-inj rest' (redact_from match 0 s) (sym e))
  strip_prefix-redact_from (d ∷ q) [] rest' l e = absurd (none≢some rest' e)
  strip_prefix-redact_from (d ∷ q) (c ∷ s) rest' l e = elim (Option-cases (match (c ∷ s))) [
    | inr (n, m) ↦ absurd (
        none≢some rest' (
          sym (strip_prefix-other d q "[" ("REDACTED]" ++ redact_from match (n - 1) s) l.0)
          ∙ (ap (λ t. strip_prefix (d ∷ q) t)
                (sym (redact_from-match c s n m ∙ bracket (redact_from match (n - 1) s)))
              ∙ e)))
    | inl m ↦ elim (Bool-cases (code d == code c)) [
      | inl t ↦
          let (rest, found, same) = strip_prefix-redact_from q s rest' l.1 (
            sym (strip_prefix-same d q c (redact_from match 0 s) t)
            ∙ (ap (λ t. strip_prefix (d ∷ q) t) (sym (redact_from-none c s m)) ∙ e)) in
          (rest, strip_prefix-same d q c s t ∙ found, same)
      | inr t ↦ absurd (
          none≢some rest' (
            sym (strip_prefix-other d q c (redact_from match 0 s) t)
            ∙ (ap (λ t. strip_prefix (d ∷ q) t) (sym (redact_from-none c s m)) ∙ e)))
    ]
  ]

-- Each place where the replaced pattern has no match has no key.
abbrev IsGuarded : (String → Option ℕ) → (String → Option ℕ) → String → Type 0
IsGuarded match key [] = Unit
IsGuarded match key (c ∷ s) = (match (c ∷ s) ≡ none → key (c ∷ s) ≡ none) × IsGuarded match key s

IsGuarded-self : (match : String → Option ℕ) (s : String) → IsGuarded match match s
IsGuarded-self match [] = tt
IsGuarded-self match (c ∷ s) = (λ e. e, IsGuarded-self match s)

IsGuarded-of_IsClean :
    (match key : String → Option ℕ) (s : String) → IsClean key s → IsGuarded match key s
IsGuarded-of_IsClean match key [] h = tt
IsGuarded-of_IsClean match key (c ∷ s) h = (λ e. h.0, IsGuarded-of_IsClean match key s h.1)

redact_from_clean :
    (match : String → Option ℕ) (s : String) → IsClean match s → redact_from match 0 s ≡ s
unfolding redact_from
redact_from_clean match [] h = refl
redact_from_clean match (c ∷ s) h =
    redact_from-none match c s h.0 ∙ ap (λ t. c ∷ t) (redact_from_clean match s h.1)

-- A pattern of a prefix and a class, neither of which has `[`.
module _ (match : String → Option ℕ) (d : Char) (q : String) (p : Char → Bool) (least : ℕ)
    (lacks : Lacks b'[' (d ∷ q)) (stops : p "[" ≡ false)
    (absent : Lacks (code d) "[REDACTED]") where
  abbrev key : String → Option ℕ
  key s = key_at (d ∷ q) p least s

  too_short :
      (u rest : String)
      → strip_prefix (d ∷ q) u ≡ some rest
      → key u ≡ none
      → run_length p rest < least
  unfolding key_at
  too_short u rest f e = ground (arith, f, e)

  short-none :
      (u rest : String)
      → strip_prefix (d ∷ q) u ≡ some rest
      → run_length p rest < least
      → key u ≡ none
  unfolding key_at
  short-none u rest f h = ground (arith, f, h)

  -- Where no key was, the replacement makes none.
  key-redact_from :
      (c : Char) (s : String)
      → match (c ∷ s) ≡ none
      → key (c ∷ s) ≡ none
      → key (c ∷ redact_from match 0 s) ≡ none
  unfolding key_at
  key-redact_from c s m e = elim (Option-cases (strip_prefix (d ∷ q) (c ∷ redact_from match 0 s))) [
    | inl f ↦ rw (f, key_at) refl
    | inr (rest', f) ↦
        let (rest, found, same) =
          strip_prefix-redact_from match (d ∷ q) (c ∷ s) rest' lacks
            (ap (λ t. strip_prefix (d ∷ q) t) (redact_from-none match c s m) ∙ f) in
        short-none (c ∷ redact_from match 0 s) rest' f (
          omega (
            arith,
            too_short (c ∷ s) rest found e,
            run_length-redact_from match p stops rest,
            ap (λ t. run_length p t) same,
          ))
  ]

  key-other : (c : Char) (s : String) → (code d == code c) ≡ false → key (c ∷ s) ≡ none
  unfolding key_at
  key-other c s h = rw (strip_prefix-other d q c s h, key_at) refl

  append-IsClean : (w t : String) → Lacks (code d) w → IsClean key t → IsClean key (w ++ t)
  append-IsClean [] t l h = rw (nil-append t) h
  append-IsClean (c ∷ w) t l h =
      rw (cons-append c w t) (key-other c (w ++ t) (ground (arith, l.0)), append-IsClean w t l.1 h)

  redact_from-IsClean :
      (skip : ℕ) (s : String) → IsGuarded match key s → IsClean key (redact_from match skip s)
  unfolding redact_from key_at strip_prefix
  redact_from-IsClean skip [] g = refl
  redact_from-IsClean (suc skip) (c ∷ s) g = redact_from-IsClean skip s g.1
  redact_from-IsClean zero (c ∷ s) g = elim (Option-cases (match (c ∷ s))) [
    | inl e ↦
        rw (redact_from-none match c s e)
          (key-redact_from c s e (g.0 e), redact_from-IsClean zero s g.1)
    | inr (n, e) ↦ rw (redact_from-match match c s n e) (
        append-IsClean "[REDACTED]" (redact_from match (n - 1) s) absent
          (redact_from-IsClean (n - 1) s g.1))
  ]

-- Each replacement with the patterns that must not occur after it.
redact_openai : (s : String) → IsClean openai_key_at (redact openai_key_at s)
unfolding redact openai_key_at is_alphanumeric
redact_openai s =
    redact_from-IsClean openai_key_at "s" "k-" is_alphanumeric 20 (ground arith) refl (ground arith)
      0 s (IsGuarded-self openai_key_at s)

redact_anthropic-openai :
    (s : String) → IsClean openai_key_at s → IsClean openai_key_at (redact anthropic_key_at s)
unfolding redact openai_key_at is_alphanumeric
redact_anthropic-openai s h =
    redact_from-IsClean anthropic_key_at "s" "k-" is_alphanumeric 20 (ground arith) refl
      (ground arith) 0 s (IsGuarded-of_IsClean anthropic_key_at openai_key_at s h)

redact_anthropic : (s : String) → IsClean anthropic_key_at (redact anthropic_key_at s)
unfolding redact anthropic_key_at is_key_char
redact_anthropic s =
    redact_from-IsClean anthropic_key_at "s" "k-ant-" is_key_char 1 (ground arith) refl
      (ground arith) 0 s (IsGuarded-self anthropic_key_at s)

sanitize_clean :
    (s : String) → IsClean openai_key_at s → IsClean anthropic_key_at s → sanitize (some s) ≡ s
unfolding sanitize redact
sanitize_clean s h k =
    ap (λ t. redact_from anthropic_key_at 0 t) (redact_from_clean openai_key_at s h)
    ∙ redact_from_clean anthropic_key_at s k

-- What sanitizeError returns has no match of either pattern at any place; and it is the error's text
-- itself exactly when that has none.
pub sanitize-IsClean :
    (s : String)
    → IsClean openai_key_at (sanitize (some s))
      × IsClean anthropic_key_at (sanitize (some s))
      × ((sanitize (some s) ≡ s) ↔ (IsClean openai_key_at s × IsClean anthropic_key_at s))
unfolding sanitize
sanitize-IsClean s =
    let openai = redact_anthropic-openai (redact openai_key_at s) (redact_openai s) in
    let anthropic = redact_anthropic (redact openai_key_at s) in
    (
      openai,
      anthropic,
      (
        λ e. (subst (IsClean openai_key_at) e openai, subst (IsClean anthropic_key_at) e anthropic),
        λ h. sanitize_clean s h.0 h.1,
      ),
    )
