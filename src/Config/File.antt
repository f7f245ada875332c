-- ===== src/Config/File.antt =====
-- Loading a configuration file: which lines count, and a printed file read back.
use mathlib.Core.List
use mathlib.Core.Option
use musicd.Base.{
  ℕ, zero, suc, ◌+◌, ◌<◌, ◌≡◌, refl, sym, ap, ◌∙◌, Bool, true, false, not, ◌&&◌, List, [], ◌∷◌,
  ◌++◌, none, some, inl, inr, arith, Bool-cases, Option-cases, if◌then◌else◌, Bytes, ◌==◌, All,
  length, drop, All-append, drop-length_append,
}
use musicd.Memory.{done}
use musicd.Config.{
  Config, config_set, blank, skip_whitespace, upto_blank, read_key, read_value, ignored, load_line,
  load_lines, config_load_file,
}
use musicd.Config.Lines.{line_of, read_line-line_of}
use musicd.Config.Store.{set_all}

-- The lines of a file that end with a newline; `line` is what of the first was read before.
abbrev pub lines_from : Bytes → Bytes → List Bytes
lines_from line [] = []
lines_from line (c ∷ file) =
    if c == 10 then line ∷ lines_from [] file else lines_from (line ++ (c ∷ [])) file

abbrev pub load_all : List Bytes → Config → Config
load_all [] c = c
load_all (line ∷ lines) c = load_all lines (load_line line c)

lines_from-none : (before file : Bytes) → line_of file ≡ none → lines_from before file ≡ []
unfolding line_of
lines_from-none before [] h = refl
lines_from-none before (c ∷ file) h = elim (Bool-cases (c == 10)) [
  | inl newline ↦ absurd (ground arith)
  | inr other ↦ rw other (lines_from-none (before ++ (c ∷ [])) file (ground arith))
]

-- A first line leaves a shorter file.
record Cut (before file line rest : Bytes) : Type 0 where
  lines_are : lines_from before file ≡ (before ++ line) ∷ lines_from [] rest
  shorter : length rest < length file

lines_from-some :
    (before file line rest : Bytes) → line_of file ≡ some (line, rest) → Cut before file line rest
unfolding line_of
lines_from-some before [] line rest h = absurd (ground arith)
lines_from-some before (c ∷ file) line rest h = elim (Bool-cases (c == 10)) [
  | inl newline ↦
      let e : ◌≡◌ {A = Bytes × Bytes} ([], file) (line, rest) =
        Option.some-injective _ _ (rw newline at h) in
      record {
        lines_are = rw newline (
            ap (λ l. l ∷ lines_from [] file) (sym (List.append-nil before))
            ∙ ap (λ (p : Bytes × Bytes). (before ++ p.0) ∷ lines_from [] p.1) e);
        shorter = omega (arith, ap (λ (p : Bytes × Bytes). length p.1) e);
      }
  | inr other ↦ elim (Option-cases (line_of file)) [
    | inl e ↦ absurd (ground arith)
    | inr ((t, behind), e) ↦
        let e' : ◌≡◌ {A = Bytes × Bytes} (c ∷ t, behind) (line, rest) =
          Option.some-injective _ _ (rw e at rw other at h) in
        let cut = lines_from-some (before ++ (c ∷ [])) file t behind e in
        record {
          lines_are = rw other (
              cut.lines_are
              ∙ ap (λ l. l ∷ lines_from [] behind) (List.append_assoc before (c ∷ []) t)
              ∙ ap (λ (p : Bytes × Bytes). (before ++ p.0) ∷ lines_from [] p.1) e');
          shorter = omega (arith, cut.shorter, ap (λ (p : Bytes × Bytes). length p.1) e');
        }
  ]
]

load_lines-load_all :
    (fuel : ℕ) (file : Bytes) (c : Config)
    → length file < fuel
    → load_lines fuel file c ≡ done (load_all (lines_from [] file) c)
unfolding load_lines
load_lines-load_all zero file c h = absurd (omega arith)
load_lines-load_all (suc fuel) file c h = elim (Option-cases (line_of file)) [
  | inl e ↦ rw (read_line-line_of file) (rw e (rw (lines_from-none [] file e) refl))
  | inr ((line, rest), e) ↦
      let cut = lines_from-some [] file line rest e in
      rw (read_line-line_of file) (
        rw e (
          load_lines-load_all fuel rest (load_line line c) (omega (arith, cut.shorter))
          ∙ ap (λ ls. done (load_all ls c)) (sym cut.lines_are)))
]

-- Loading a file always ends, and loads exactly its lines that end with a newline, in their order.
pub config_load_file-load_all :
    (file : Bytes) (c : Config)
    → config_load_file (some file) c ≡ done (load_all (lines_from [] file) c, true)
unfolding config_load_file
config_load_file-load_all file c =
    rw (load_lines-load_all (length file + 1) file c (omega arith)) refl

abbrev pub plain : ℕ → Bool
plain c = not (blank c) && not (c == 10)

-- A name for a setting: no blanks or newlines, and no comment.
abbrev pub IsKey : Bytes → Type 0
IsKey [] = Unit
IsKey (c ∷ key) = ((c == b'#') ≡ false) × All (λ c. plain c ≡ true) (c ∷ key)

abbrev pub IsValue : Bytes → Type 0
IsValue [] = Unit
IsValue (c ∷ value) = (blank c ≡ false) × All (λ c. (c == 10) ≡ false) (c ∷ value)

-- A setting that a file can give: its key is not empty.
abbrev pub IsEntry : Bytes × Bytes → Type 0
IsEntry (key, value) = (0 < length key) × IsKey key × IsValue value

abbrev pub print_file : List (Bytes × Bytes) → Bytes
print_file [] = []
print_file ((key, value) ∷ entries) = key ++ (b' ' ∷ (value ++ (10 ∷ print_file entries)))

lines_from-line :
    (before line rest : Bytes)
    → All (λ c. (c == 10) ≡ false) line
    → lines_from before (line ++ (10 ∷ rest)) ≡ (before ++ line) ∷ lines_from [] rest
lines_from-line before [] rest h = ap (λ l. l ∷ lines_from [] rest) (sym (List.append-nil before))
lines_from-line before (c ∷ line) rest (other, h) = rw other (
    lines_from-line (before ++ (c ∷ [])) line rest h
    ∙ ap (λ l. l ∷ lines_from [] rest) (List.append_assoc before (c ∷ []) line))

upto_blank-word :
    (word rest : Bytes) → All (λ c. plain c ≡ true) word → upto_blank (word ++ (b' ' ∷ rest)) ≡ word
unfolding upto_blank
upto_blank-word [] rest h = refl
upto_blank-word (c ∷ word) rest (p, h) = ground (arith, upto_blank-word word rest h)

skip_whitespace-value : (value : Bytes) → IsValue value → skip_whitespace value ≡ value
unfolding skip_whitespace
skip_whitespace-value [] v = refl
skip_whitespace-value (c ∷ value) (b, h) = rw b refl

load_line-entry :
    (key value : Bytes) (c : Config)
    → IsEntry (key, value)
    → load_line (key ++ (b' ' ∷ value)) c ≡ config_set key value c
unfolding load_line read_key read_value ignored skip_whitespace
load_line-entry [] value c (n, k, v) = absurd (omega arith)
load_line-entry (d ∷ key) value c (n, (no_comment, (p, ps)), v) =
    let no_blank : blank d ≡ false = ground arith in
    rw no_comment (
      rw no_blank (
        rw (upto_blank-word (d ∷ key) value (p, ps)) (
          rw (drop-length_append (d ∷ key) (b' ' ∷ value))
            (rw (skip_whitespace-value value v) refl))))

All-plain-line : (key : Bytes) → All (λ c. plain c ≡ true) key → All (λ c. (c == 10) ≡ false) key
All-plain-line [] h = tt
All-plain-line (c ∷ key) (p, h) = (ground arith, All-plain-line key h)

line_bytes :
    (key value : Bytes)
    → IsEntry (key, value)
    → All (λ c. (c == 10) ≡ false) (key ++ (b' ' ∷ value))
line_bytes key value (n, k, v) =
    All-append (λ c. (c == 10) ≡ false) key (b' ' ∷ value) (key_bytes key k)
      (refl, value_bytes value v)
  where
    key_bytes : (key : Bytes) → IsKey key → All (λ c. (c == 10) ≡ false) key
    key_bytes [] k = tt
    key_bytes (c ∷ key) k = All-plain-line (c ∷ key) k.1

    value_bytes : (value : Bytes) → IsValue value → All (λ c. (c == 10) ≡ false) value
    value_bytes [] v = tt
    value_bytes (c ∷ value) v = v.1

load_all-print_file :
    (entries : List (Bytes × Bytes)) (c : Config)
    → All IsEntry entries
    → load_all (lines_from [] (print_file entries)) c ≡ set_all entries c
load_all-print_file [] c h = refl
load_all-print_file ((key, value) ∷ entries) c (entry, h) =
    let line : lines_from [] ((key ++ (b' ' ∷ value)) ++ (10 ∷ print_file entries))
        ≡ (key ++ (b' ' ∷ value)) ∷ lines_from [] (print_file entries) =
      lines_from-line [] (key ++ (b' ' ∷ value)) (print_file entries)
        (line_bytes key value entry) in
    ap (λ t. load_all (lines_from [] t) c)
      (sym (List.append_assoc key (b' ' ∷ value) (10 ∷ print_file entries)))
    ∙ ap (λ ls. load_all ls c) line
    ∙ ap (load_all (lines_from [] (print_file entries))) (load_line-entry key value c entry)
    ∙ load_all-print_file entries (config_set key value c) h

-- A file written with one line for each setting, its key, a space and its value, sets exactly these,
-- in their order: keys are not empty, have no blanks and do not begin with a #, values do not begin
-- with a blank, and neither has newlines.
pub config_load_file-print_file :
    (entries : List (Bytes × Bytes)) (c : Config)
    → All IsEntry entries
    → config_load_file (some (print_file entries)) c ≡ done (set_all entries c, true)
config_load_file-print_file entries c h =
    config_load_file-load_all (print_file entries) c
    ∙ ap (λ c. done (c, true)) (load_all-print_file entries c h)

plain-blank : (c : ℕ) → plain c ≡ true → blank c ≡ false
plain-blank c h = ground arith

last_plain :
    (key : Bytes) (letter : ℕ)
    → All (λ c. plain c ≡ true) (key ++ (letter ∷ []))
    → plain letter ≡ true
last_plain [] letter (p, h) = p
last_plain (c ∷ key) letter (p, h) = last_plain key letter h

drop_last :
    (key rest : Bytes) (letter x : ℕ)
    → drop (length (key ++ (letter ∷ []))) (x ∷ ((key ++ (letter ∷ [])) ++ rest)) ≡ letter ∷ rest
drop_last [] rest letter x = refl
drop_last (c ∷ key) rest letter x = drop_last key rest letter c

word_not_ignored :
    (key rest : Bytes) (letter : ℕ)
    → IsKey (key ++ (letter ∷ []))
    → (ignored ((key ++ (letter ∷ [])) ++ rest) ≡ false)
      × (skip_whitespace ((key ++ (letter ∷ [])) ++ rest) ≡ (key ++ (letter ∷ [])) ++ rest)
unfolding ignored skip_whitespace
word_not_ignored [] rest letter (no_comment, (p, h)) = ground arith
word_not_ignored (c ∷ key) rest letter (no_comment, (p, h)) = ground arith

All-IsKey : (key : Bytes) → IsKey key → All (λ c. plain c ≡ true) key
All-IsKey [] k = tt
All-IsKey (c ∷ key) k = k.1

-- In a line with one blank before its key the value read begins with the last byte of the key:
-- the key's length is counted from the start of the line.
pub load_line_indented :
    (key value : Bytes) (letter : ℕ) (c : Config)
    → IsKey (key ++ (letter ∷ []))
    → load_line (b' ' ∷ ((key ++ (letter ∷ [])) ++ (b' ' ∷ value))) c
      ≡ config_set (key ++ (letter ∷ [])) (letter ∷ b' ' ∷ value) c
unfolding load_line read_key read_value ignored skip_whitespace
load_line_indented key value letter c k =
    let word = key ++ (letter ∷ []) in
    let plains = All-IsKey word k in
    let (counts, starts) = word_not_ignored key (b' ' ∷ value) letter k in
    let solid : blank letter ≡ false = plain-blank letter (last_plain key letter plains) in
    rw counts (
      rw starts (
        rw (upto_blank-word word value plains)
          (rw (drop_last key (b' ' ∷ value) letter b' ') (rw solid refl))))
