-- ===== src/Cue/Text.antt =====
-- src/cue.c: what `read_string` makes of a quoted text.
use musicd.Base.{
  ℕ, ◌+◌, ◌≡◌, refl, ap, ◌∙◌, inl, inr, Bool-cases, Bool, true, false, not, ◌&&◌, [], ◌∷◌, ◌++◌,
  arith, append_assoc, append-nil, All, Bytes, length, length-append, ltb, ◌==◌, if◌then◌else◌,
}
use musicd.Memory.{Run, done, fault, out_of_bounds}
use musicd.Cue.{read_from, read_string}

-- A byte that is neither a quote nor a backslash.
abbrev pub plain_byte : ℕ → Bool
plain_byte c = not (c == b'"') && not (c == 92)

-- A plain byte is copied if there is room.
read_from-plain :
    (size read : ℕ) (dst : Bytes) (c d : ℕ) (p : Bytes)
    → plain_byte c ≡ true
    → read_from size read dst (c ∷ d ∷ p) ≡ (
        if ltb (length dst) size
        then read_from size (read + 1) (dst ++ (c ∷ [])) (d ∷ p)
        else fault out_of_bounds)
unfolding read_from
read_from-plain size read dst c d p h =
    let no_quote : (c == b'"') ≡ false = ground arith in
    let no_escape : (c == 92) ≡ false = ground arith in
    rw (no_quote, read_from) (rw (no_escape, read_from) refl)

-- What the loop makes of a plain text with a quote behind it.
abbrev pub copied : ℕ → ℕ → Bytes → Bytes → Run (ℕ × Bytes)
copied size read dst text =
    if ltb (length dst + length text) size
    then done (read + length text, dst ++ text)
    else fault out_of_bounds

copied-cons :
    (size read : ℕ) (dst : Bytes) (c : ℕ) (text : Bytes)
    → (if ltb (length dst) size
        then copied size (read + 1) (dst ++ (c ∷ [])) text
        else fault out_of_bounds)
      ≡ copied size read dst (c ∷ text)
copied-cons size read dst c text =
    rw (append_assoc dst (c ∷ []) text) (rw (length-append dst (c ∷ [])) (ground arith))

read_from-copied :
    (size read : ℕ) (dst text rest : Bytes)
    → All (λ c. plain_byte c ≡ true) text
    → read_from size read dst (text ++ (b'"' ∷ rest)) ≡ copied size read dst text
read_from-copied size read dst [] [] h = unfold read_from in rw (append-nil dst) (ground arith)
read_from-copied size read dst [] (d ∷ rest) h =
    unfold read_from in rw (append-nil dst) (ground arith)
read_from-copied size read dst (c ∷ []) rest (h, k) =
    read_from-plain size read dst c b'"' rest h
    ∙ ap (λ r. if ltb (length dst) size then r else fault out_of_bounds)
        (read_from-copied size (read + 1) (dst ++ (c ∷ [])) [] rest tt)
    ∙ copied-cons size read dst c []
read_from-copied size read dst (c ∷ d ∷ text) rest (h, k) =
    read_from-plain size read dst c d (text ++ (b'"' ∷ rest)) h
    ∙ ap (λ r. if ltb (length dst) size then r else fault out_of_bounds)
        (read_from-copied size (read + 1) (dst ++ (c ∷ [])) (d ∷ text) rest k)
    ∙ copied-cons size read dst c (d ∷ text)

-- A quoted text without quotes and backslashes in it is read as it stands if it fits the buffer with
-- its NUL; from the buffer's size on, `read_string` writes behind the buffer.
pub read_string-copied :
    (size : ℕ) (text rest : Bytes)
    → All (λ c. plain_byte c ≡ true) text
    → read_string size (b'"' ∷ (text ++ (b'"' ∷ rest)))
      ≡ (if ltb (length text) size then done (1 + length text, text) else fault out_of_bounds)
unfolding read_string
read_string-copied size text rest h =
    let none_yet : 0 + length text ≡ length text = omega arith in
    read_from-copied size 1 [] text rest h
    ∙ ap (λ n. if ltb n size then done (1 + length text, text) else fault out_of_bounds) none_yet

read_from-unclosed :
    (size read : ℕ) (dst p : Bytes)
    → All (λ c. (c == b'"') ≡ false) p
    → read_from size read dst p ≡ fault out_of_bounds
unfolding read_from
read_from-unclosed size read dst [] h = refl
read_from-unclosed size read dst (c ∷ []) (h, k) = rw h refl
read_from-unclosed size read dst (c ∷ d ∷ p) (h, (k, l)) = elim (Bool-cases (c == 92)) [
  | inl e ↦
      rw (h, read_from)
        (rw e (
          rw k (elim (Bool-cases (ltb (length dst + 1) size)) [
            | inl room ↦ rw room (read_from-unclosed size (read + 2) (dst ++ (92 ∷ d ∷ [])) p l)
            | inr full ↦ rw full refl
          ])))
  | inr e ↦
      rw (h, read_from)
        (rw e (elim (Bool-cases (ltb (length dst) size)) [
          | inl room ↦ rw room (read_from-unclosed size (read + 1) (dst ++ (c ∷ [])) (d ∷ p) (k, l))
          | inr full ↦ rw full refl
        ]))
]

-- A string whose closing quote is missing is never ended: whatever it holds and however large the buffer
-- is, `read_string` leaves the text or the buffer.
pub read_string-unclosed :
    (size : ℕ) (text : Bytes)
    → All (λ c. (c == b'"') ≡ false) text
    → read_string size (b'"' ∷ text) ≡ fault out_of_bounds
unfolding read_string
read_string-unclosed size text h = read_from-unclosed size 1 [] text h
