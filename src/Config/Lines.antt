-- ===== src/Config/Lines.antt =====
-- `read_line` against the first line of a text, with a buffer that is always large enough.
use mathlib.Core.Option
use musicd.Base.{
  ℕ, ◌+◌, ◌*◌, ◌≤◌, ◌<◌, ◌≡◌, refl, [], ◌∷◌, Option, none, some, inl, inr, arith, Bool-cases,
  if◌then◌else◌, Bytes, leb, ◌==◌, lt→ltb,
}
use musicd.Memory.{done}
use musicd.Config.{read_bytes, read_line}

-- The text before the first newline and the text behind it; none without a newline.
unfoldable pub line_of : Bytes → Option (Bytes × Bytes)
line_of [] = none
line_of (c ∷ file) =
    if c == 10
    then some ([], file)
    else Option.map (λ (line, rest). (c ∷ line, rest)) (line_of file)

read_bytes-line_of :
    (buf_len pos : ℕ) (file : Bytes)
    → 1 ≤ buf_len
    → pos ≤ buf_len
    → read_bytes buf_len pos file ≡ done (line_of file)
unfolding read_bytes line_of
read_bytes-line_of buf_len pos [] one room = ground arith
read_bytes-line_of buf_len pos (c ∷ file) one room =
    let larger = if leb buf_len (pos + 1) then buf_len * 2 else buf_len in
    let enough : pos < larger = ground arith in
    let rest =
      read_bytes-line_of larger (pos + 1) file (omega (arith, enough)) (omega (arith, enough)) in
    rw (lt→ltb _ _ enough)
      (rw rest (elim (Bool-cases (c == 10)) [ inl h ↦ rw h refl | inr h ↦ rw h refl ]))

-- `read_line` never writes outside its buffer, whatever the length of the line; it reads the text up
-- to the first newline and leaves what stands behind it, and what stands behind the last newline of a
-- file is never read.
pub read_line-line_of : (file : Bytes) → read_line file ≡ done (line_of file)
unfolding read_line
read_line-line_of file = read_bytes-line_of 81 0 file (omega arith) (omega arith)
