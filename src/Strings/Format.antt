-- ===== src/Strings/Format.antt =====
-- The loop that `stringf`, `string_appendf` and src/client.c's `client_send` share: `vsnprintf`
-- into a buffer that grows until the formatted text fits. `vsnprintf` itself is a parameter; it
-- takes the buffer's size and answers with its return value (`none` is -1, as an old C library
-- says "too small") and what it left in the buffer.
use native.Mathlib.Nat.{pow-suc}
use musicd.Base.{
  ℕ, zero, suc, ◌+◌, ◌*◌, ◌^◌, ◌≤◌, ◌<◌, ◌≡◌, ap, ◌∙◌, ◌⊎◌, inl, inr, ◌++◌, Option, none, some,
  Bool-cases, length, take, false, ltb, ltb→lt, arith, if◌then◌else◌, Bytes,
}
use musicd.Memory.{Run, done, fault, endless, ◌>>=◌, take_all}
use musicd.Strings.Contents.{Holds, string_nappend-Holds}
use musicd.Strings.Growth.{size_half}
use musicd.Strings.{Buffer, string_nappend}

abbrev pub Printer : Type 0
Printer = ℕ → Option ℕ × Bytes

-- The size of the next try: `n + 1` if the text's length `n` is known, else twice the old one.
pub next_size : Option ℕ → ℕ → ℕ
next_size (some n) size = n + 1
next_size none size = size * 2

-- `while (1) { n = vsnprintf(buf, size, …); … }`: the buffer and the number of bytes.
pub format_loop : ℕ → Printer → ℕ → Run (Bytes × ℕ)
format_loop zero vsnprintf size = fault endless
format_loop (suc fuel) vsnprintf size =
    let more = format_loop fuel vsnprintf (next_size (vsnprintf size).0 size) in
    elim (vsnprintf size).0 [
      | none ↦ more
      | some n ↦ if ltb n size then done ((vsnprintf size).1, n) else more
    ]

pub stringf : ℕ → Printer → Run Bytes
stringf fuel vsnprintf = do (buf, n) ← format_loop fuel vsnprintf 128; done buf

pub string_appendf : ℕ → Buffer → Printer → Run Buffer
string_appendf fuel s vsnprintf = do
  (buf, n) ← format_loop fuel vsnprintf 128
  string_nappend s (take n buf)

-- What the manual page says of `vsnprintf`: with room for the text and its NUL it writes the text
-- and returns its length; else it returns that length, or -1 in C libraries before the 1999 standard.
pub record Prints (vsnprintf : Printer) (text : Bytes) : Type 0 where
  pub roomy : (size : ℕ) → length text < size → vsnprintf size ≡ (some (length text), text)
  pub tight :
      (size : ℕ)
      → size ≤ length text
      → ((vsnprintf size).0 ≡ some (length text)) ⊎ ((vsnprintf size).0 ≡ none)

lt-false : (a b : ℕ) → b ≤ a → ltb a b ≡ false
lt-false a b h = ground arith

format_loop-roomy :
    (fuel : ℕ) (vsnprintf : Printer) (text : Bytes) (size : ℕ)
    → Prints vsnprintf text
    → length text < size
    → format_loop (suc fuel) vsnprintf size ≡ done (text, length text)
unfolding format_loop
format_loop-roomy fuel vsnprintf text size p h = ground (arith, p.roomy size h)

module _ (fuel : ℕ) (vsnprintf : Printer) (size : ℕ) where
  format_loop-known :
      (n : ℕ)
      → (vsnprintf size).0 ≡ some n
      → size ≤ n
      → format_loop (suc fuel) vsnprintf size ≡ format_loop fuel vsnprintf (n + 1)
  unfolding format_loop next_size
  format_loop-known n e h =
      rw (e, format_loop)
        (rw (lt-false n size h) (ap (λ o. format_loop fuel vsnprintf (next_size o size)) e))

  format_loop-unknown :
      (vsnprintf size).0 ≡ none
      → format_loop (suc fuel) vsnprintf size ≡ format_loop fuel vsnprintf (size * 2)
  unfolding format_loop next_size
  format_loop-unknown e =
      rw (e, format_loop) (ap (λ o. format_loop fuel vsnprintf (next_size o size)) e)

-- Whatever the text and the flavour of `vsnprintf`, the loop ends with the whole text.
format_loop-Prints :
    (fuel : ℕ) (vsnprintf : Printer) (text : Bytes) (size : ℕ)
    → Prints vsnprintf text
    → length text < size * 2 ^ fuel
    → format_loop (suc (suc fuel)) vsnprintf size ≡ done (text, length text)
format_loop-Prints zero vsnprintf text size p h =
    format_loop-roomy 1 vsnprintf text size p (omega arith)
format_loop-Prints (suc fuel) vsnprintf text size p h = elim (Bool-cases (ltb (length text) size)) [
  | inl room ↦ format_loop-roomy (suc (suc fuel)) vsnprintf text size p (ltb→lt _ _ room)
  | inr small ↦ elim (p.tight size (ground arith)) [
    | inl known ↦
        format_loop-known (suc (suc fuel)) vsnprintf size (length text) known (ground arith)
        ∙ format_loop-roomy (suc fuel) vsnprintf text (length text + 1) p (omega arith)
    | inr unknown ↦
        format_loop-unknown (suc (suc fuel)) vsnprintf size unknown
        ∙ format_loop-Prints fuel vsnprintf text (size * 2) p (omega (arith, rw pow-suc at h))
  ]
]

-- `stringf` always returns the whole formatted text: three tries are enough where `vsnprintf`
-- tells the length, and one more for each doubling of 128 bytes where it does not.
pub stringf-Prints :
    (fuel : ℕ) (vsnprintf : Printer) (text : Bytes)
    → Prints vsnprintf text
    → length text < 128 * 2 ^ fuel
    → stringf (suc (suc fuel)) vsnprintf ≡ done text
unfolding stringf
stringf-Prints fuel vsnprintf text p h = rw (format_loop-Prints fuel vsnprintf text 128 p h)

-- Where the buffer has room for at least one byte and the text stays below 2^63 bytes,
-- `string_appendf` appends exactly the formatted text, for enough fuel to double 128 bytes up to it.
pub string_appendf-Holds :
    (fuel : ℕ) (s : Buffer) (vsnprintf : Printer) (before text : Bytes)
    → Holds s before
    → 0 < s.max_size
    → Prints vsnprintf text
    → length text < 128 * 2 ^ fuel
    → length before + length text ≤ size_half
    → (s' : Buffer) × (string_appendf (suc (suc fuel)) s vsnprintf ≡ done s')
      × Holds s' (before ++ text)
      × (s.max_size ≤ s'.max_size)
string_appendf-Holds fuel s vsnprintf before text holds room p h k =
    let (s', appended, after, kept) = string_nappend-Holds s before text holds room k in
    (
      s',
      unfold string_appendf in
          rw (format_loop-Prints fuel vsnprintf text 128 p h)
            (rw (take_all (length text) text (omega arith)) appended),
      after,
      kept,
    )
