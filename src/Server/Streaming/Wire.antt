-- ===== src/Server/Streaming/Wire.antt =====
-- internal/server/handlers.go: a client's reader of what handleStreamingChat writes, after the
-- standard of server-sent events.
use Prim.Native.Char.{Char, code}
use Prim.Native.String.{[], ◌∷◌, ◌++◌}
use text.Mathlib.TextLemmas.{nil-append, cons-append, append-nil, append_assoc}
use mathlib.Core.List.{List}
use resillm.Common.{
  strip_prefix, strip_prefix-append, String, true, false, Option, none, some, ◌==◌, All, ◌≡◌, refl,
  sym, ap, ◌∙◌, arith, map,
}
use resillm.Server.Streaming.{StreamError, Event, payload, event_text, wire}

-- A line that has ended: a field `data` is added to what was read before.
add_field : String → Option String → Option String
unfolding strip_prefix
add_field line before = elim (strip_prefix "data: " line) [
  | none ↦ before
  | some text ↦ elim before [ none ↦ some text | some t ↦ some (t ++ ("\n" ++ text)) ]
]

-- A reader with the line and the data it holds; an empty line ends an event.
read_from : String → Option String → String → List String
unfolding add_field
read_from line data' [] = List.[]
read_from line data' (c ∷ s) = elim (code c == b'\n') [
  | false ↦ read_from (line ++ (c ∷ [])) data' s
  | true ↦ elim line [
    | [] ↦ elim data' [ none ↦ read_from "" none s | some t ↦ List.◌∷◌ t (read_from "" none s) ]
    | d ∷ rest ↦ read_from "" (add_field (d ∷ rest) data') s
  ]
]

unfoldable pub read_events : String → List String
unfolding read_from
read_events s = read_from "" none s

-- No line ends in the text.
abbrev pub IsLine : String → Type 0
IsLine [] = Unit
IsLine (c ∷ s) = ((code c == b'\n') ≡ false) × IsLine s

read_from-char :
    (line : String) (before : Option String) (c : Char) (s : String)
    → (code c == b'\n') ≡ false
    → read_from line before (c ∷ s) ≡ read_from (line ++ (c ∷ [])) before s
unfolding read_from
read_from-char line before c s e = rw (e, read_from) refl

read_from-IsLine :
    (line : String) (before : Option String) (p s : String)
    → IsLine p
    → read_from line before (p ++ s) ≡ read_from (line ++ p) before s
read_from-IsLine line before [] s h = rw (nil-append s, append-nil line) refl
read_from-IsLine line before (c ∷ p) s h =
    ap (λ t. read_from line before t) (cons-append c p s)
    ∙ (read_from-char line before c (p ++ s) h.0
        ∙ (read_from-IsLine (line ++ (c ∷ [])) before p s h.1
            ∙ ap (λ t. read_from t before s)
                (append_assoc line (c ∷ []) p
                  ∙ ap (λ t. line ++ t) (cons-append c [] p ∙ ap (λ t. c ∷ t) (nil-append p)))))

two_ends : (s : String) → "\n\n" ++ s ≡ "\n" ∷ ("\n" ∷ s)
two_ends s =
    cons-append "\n" "\n" s
    ∙ ap (λ t. "\n" ∷ t) (cons-append "\n" [] s ∙ ap (λ t. "\n" ∷ t) (nil-append s))

add_field-none :
    (line text : String) → strip_prefix "data: " line ≡ some text → add_field line none ≡ some text
unfolding add_field
add_field-none line text e = rw (e, add_field) refl

-- After a field's line and an empty one.
read_from-line_end :
    (d : Char) (rest text s : String)
    → add_field (d ∷ rest) none ≡ some text
    → read_from (d ∷ rest) none ("\n" ∷ ("\n" ∷ s)) ≡ List.◌∷◌ text (read_from "" none s)
unfolding read_from
read_from-line_end d rest text s e = rw (e, read_from) refl

read_from-ends :
    (p s : String)
    → read_from ("data: " ++ p) none ("\n" ∷ ("\n" ∷ s)) ≡ List.◌∷◌ p (read_from "" none s)
read_from-ends p s =
    let e = cons-append "d" "ata: " p in
    ap (λ t. read_from t none ("\n" ∷ ("\n" ∷ s))) e
    ∙ read_from-line_end "d" ("ata: " ++ p) p s (
        ap (λ t. add_field t none) (sym e)
        ∙ add_field-none ("data: " ++ p) p (strip_prefix-append "data: " p))

event_text-append : (p s : String) → event_text p ++ s ≡ "data: " ++ (p ++ ("\n" ∷ ("\n" ∷ s)))
unfolding event_text
event_text-append p s =
    append_assoc "data: " (p ++ "\n\n") s
    ∙ ap (λ t. "data: " ++ t) (append_assoc p "\n\n" s ∙ ap (λ t. p ++ t) (two_ends s))

-- One event is read as its text.
read_from-event :
    (p s : String)
    → IsLine p
    → read_from "" none (event_text p ++ s) ≡ List.◌∷◌ p (read_from "" none s)
read_from-event p s h =
    ap (λ t. read_from "" none t) (event_text-append p s)
    ∙ (read_from-IsLine "" none "data: " (p ++ ("\n" ∷ ("\n" ∷ s))) (ground arith)
        ∙ (ap (λ t. read_from t none (p ++ ("\n" ∷ ("\n" ∷ s)))) (nil-append "data: ")
            ∙ (read_from-IsLine "data: " none p ("\n" ∷ ("\n" ∷ s)) h ∙ read_from-ends p s)))

-- A client that reads what the handler writes finds the events' texts, each whole and in order,
-- where no text has a line end in it, as an encoded JSON value has none.
pub read_events-wire :
    (error_json : StreamError → String) (events : List Event)
    → All (λ x. IsLine (payload error_json x)) events
    → read_events (wire error_json events) ≡ map (payload error_json) events
unfolding read_events wire read_from
read_events-wire error_json List.[] h = refl
read_events-wire error_json (List.◌∷◌ x xs) h =
    read_from-event (payload error_json x) (wire error_json xs) h.0
    ∙ ap (λ t. List.◌∷◌ (payload error_json x) t) (read_events-wire error_json xs h.1)
