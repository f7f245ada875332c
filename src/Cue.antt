-- ===== src/Cue.antt =====
-- src/cue.c: cue sheets. A text is its bytes without NUL; what reads on behind the closing NUL of one,
-- or writes behind a buffer, is a fault, and so is the use of a variable that was never set. Times are
-- an argument: the code keeps them in double precision. So are the calls of <stdio.h> and stat, and
-- the library's functions, as an `Env`; `Store` is what these change.
pub mod Text
pub mod Sheet
pub mod Tracks
pub mod Ending
pub mod Halting
pub mod Entries
mod Tests
use musicd.Base.{
  ℕ, zero, suc, ◌+◌, ◌-◌, Bool, true, false, not, ◌&&◌, ◌||◌, List, [], ◌∷◌, ◌++◌, Option, none,
  some, is_some, ltb, leb, ◌==◌, if◌then◌else◌, Bytes, codes, equal, length, drop, take, ℤ, pos,
  negsuc, is_positive,
}
use musicd.Memory.{Run, done, fault, out_of_bounds, endless, ◌>>=◌}

abbrev pub is_blank : ℕ → Bool
is_blank c = c == b' ' || c == 9

-- The line, and the rest of the file; `room` more bytes fit, one at least.
unfoldable pub read_line : ℕ → Bool → Bytes → Bytes × Bytes
read_line room begun [] = ([], [])
read_line room begun (c ∷ file) = elim (c == 10) [
  | true ↦ ([], file)
  | false ↦ elim (c == 13 || (not begun && is_blank c)) [
    | true ↦ read_line room begun file
    | false ↦ elim (leb room 1) [
      | true ↦ (c ∷ [], file)
      | false ↦ let (line, rest) = read_line (room - 1) true file in (c ∷ line, rest)
    ]
  ]
]

-- `dst[pos] = '\0'`
abbrev pub close : ℕ → ℕ → Bytes → Run (ℕ × Bytes)
close size read dst = if ltb (length dst) size then done (read, dst) else fault out_of_bounds

-- The loop of `read_string` at `p`: `read` bytes were read and `dst` was written, whose size is `size`.
-- At the end of the text the test `p != '\0'` does not stop it.
unfoldable pub read_from : ℕ → ℕ → Bytes → Bytes → Run (ℕ × Bytes)
read_from size read dst [] = fault out_of_bounds
read_from size read dst (c ∷ []) = if c == b'"' then close size read dst else fault out_of_bounds
read_from size read dst (c ∷ d ∷ p) = elim (c == b'"') [
  | true ↦ close size read dst
  | false ↦ elim (c == 92) [
    | true ↦ elim (d == b'"') [
      | true ↦ close size (read + 1) (dst ++ (b'"' ∷ []))
      | false ↦
          if ltb (length dst + 1) size
          then read_from size (read + 2) (dst ++ (92 ∷ d ∷ [])) p
          else fault out_of_bounds
    ]
    | false ↦
        if ltb (length dst) size
        then read_from size (read + 1) (dst ++ (c ∷ [])) (d ∷ p)
        else fault out_of_bounds
  ]
]

-- The bytes read, and the string.
unfoldable pub read_string : ℕ → Bytes → Run (ℕ × Bytes)
unfolding read_from
read_string size [] = fault out_of_bounds
read_string size (c ∷ p) = if c == b'"' then read_from size 1 [] p else read_from size 0 [] (c ∷ p)

-- `isspace`
abbrev pub isspace : ℕ → Bool
isspace c = c == b' ' || (leb 9 c && leb c 13)

-- A word of at most `room` bytes.
unfoldable pub word_of : ℕ → Bytes → Bytes
word_of zero line = []
word_of (suc room) [] = []
word_of (suc room) (c ∷ line) = if isspace c then [] else c ∷ word_of room line

-- `sscanf(line, "%15s", instr)`; the empty word stands for none.
unfoldable pub scan_word : Bytes → Bytes
unfolding word_of
scan_word [] = []
scan_word (c ∷ line) = if isspace c then scan_word line else word_of 15 (c ∷ line)

-- The text before the last `c`, or nothing.
unfoldable pub find_last : ℕ → Bytes → Option Bytes
find_last c [] = none
find_last c (x ∷ s) = elim (find_last c s) [
  | some before ↦ some (x ∷ before)
  | none ↦ if x == c then some [] else none
]

unfoldable pub upto_last : ℕ → Bytes → Bytes
unfolding find_last
upto_last c s = elim (find_last c s) as (λ o. Bytes) [ none ↦ [] | some before ↦ before ]

unfoldable pub skip_bom : Bytes → Bytes
skip_bom (a ∷ b ∷ c ∷ text) = if a == 239 && (b == 187 && c == 191) then text else a ∷ b ∷ c ∷ text
skip_bom text = text
