-- ===== src/Json/Escape.antt =====
-- A reader of JSON texts, for what `json_string` writes.
use mathlib.Core.List
use mathlib.Core.Option
use musicd.Base.{
  ℕ, ◌≡◌, refl, ap, ◌∙◌, Bool, true, false, [], ◌∷◌, ◌++◌, Option, none, some, arith, ◌==◌,
  if◌then◌else◌, Bytes, codes, Option-cases, inl, inr,
}
use musicd.Json.{Json, escapes, find_escape, escape, json_string}
use musicd.Json.Print.{text, separator, emit-print, emit, print}

-- What a byte behind a backslash stands for, as RFC 8259 has it; `\/` and `\u` are not read.
unfoldable pub unescape : ℕ → Option ℕ
unescape d =
    if d == b'"'
    then some b'"'
    else if d == b'\\'
    then some b'\\'
    else if d == b'b'
    then some 8
    else if d == b't'
    then some 9
    else if d == b'n'
    then some 10
    else if d == b'f'
    then some 12
    else if d == b'r'
    then some 13
    else none

-- The text up to the closing quote, and what stands behind the quote; `escaped` behind a backslash.
unfoldable pub read_text : Bool → Bytes → Option (Bytes × Bytes)
unfolding unescape
read_text escaped [] = none
read_text true (d ∷ s) = elim (unescape d) [
  | none ↦ none
  | some c ↦ Option.map (λ (t, rest). (c ∷ t, rest)) (read_text false s)
]
read_text false (c ∷ s) =
    let behind = Option.map (λ (t, rest). (c ∷ t, rest)) (read_text false s) in
    let escape = read_text true s in
    if c == b'"' then some ([], s) else if c == b'\\' then escape else behind

find_escape-unescape : (c d : ℕ) → find_escape c escapes ≡ some d → unescape d ≡ some c
unfolding find_escape unescape
find_escape-unescape c d h = ground arith

find_escape-plain :
    (c : ℕ) → find_escape c escapes ≡ none → ((c == b'"') ≡ false) × ((c == b'\\') ≡ false)
unfolding find_escape
find_escape-plain c h = ground arith

read_text-escape : (t rest : Bytes) → read_text false (escape t ++ (b'"' ∷ rest)) ≡ some (t, rest)
unfolding read_text escape
read_text-escape [] rest = refl
read_text-escape (c ∷ t) rest = elim (Option-cases (find_escape c escapes)) [
  | inl plain ↦
      let (no_quote, no_backslash) = find_escape-plain c plain in
      rw (plain, escape) (rw no_quote (rw no_backslash (rw (read_text-escape t rest) refl)))
  | inr (d, e) ↦
      rw (e, escape) (rw (find_escape-unescape c d e) (rw (read_text-escape t rest) refl))
]

-- What `json_string` writes for a text, behind a comma if one is due, is a quote and bytes from which
-- the text is read back, whatever the text holds and whatever is written behind it: by a reader that
-- takes the escapes as JSON defines them, and other bytes, control bytes too, as they are.
pub read_text-json_string :
    (json : Json) (t rest : Bytes)
    → (written : Bytes) × ((json_string json (some t)).buf
        ≡ json.buf ++ (separator json.comma ++ (b'"' ∷ written)))
      × (read_text false (written ++ rest) ≡ some (t, rest))
read_text-json_string json t rest = (
  escape t ++ codes "\"",
  unfold emit print in ap (λ (j : Json). j.buf) (emit-print (λ i. []) (text (some t)) json),
  ap (read_text false) (List.append_assoc (escape t) (codes "\"") rest) ∙ read_text-escape t rest,
)
