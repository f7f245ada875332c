-- ===== src/Cue/Ending.antt =====
-- src/cue.c: how the reading of a sheet ends, or does not.
use musicd.Base.{
  List-cases, ℕ, zero, suc, ◌+◌, ◌-◌, ◌≤◌, ◌<◌, ◌≡◌, refl, ap, inl, inr, ◌⊎◌, Bool-cases, Bool,
  true, false, not, ◌&&◌, ◌||◌, [], ◌∷◌, some, leb, arith, Bytes, codes, length, ◌==◌, equal, ℤ,
}
use musicd.Memory.{bind-ext, Run, fault, endless}
use musicd.Cue.{
  is_blank, read_line, read_string, read_from, scan_word, word_of, skip_bom, upto_last, find_last,
}
use musicd.Cue.Sheet.{Env, Sheet, Next, go, stop, cue_file, cue_text, cue_line, cue_loop, cue_read}

-- A line and the rest are no longer than the file.
pub read_line-length :
    (room : ℕ) (begun : Bool) (file : Bytes)
    → length (read_line room begun file).0 + length (read_line room begun file).1 ≤ length file
unfolding read_line
read_line-length room begun [] = omega arith
read_line-length room begun (c ∷ file) = elim (Bool-cases (c == 10)) [
  | inl newline ↦ rw (newline, read_line) (omega arith)
  | inr other ↦ elim (Bool-cases (c == 13 || (not begun && is_blank c))) [
    | inl skipped ↦
        rw (other, read_line) (rw skipped (omega (arith, read_line-length room begun file)))
    | inr kept ↦ elim (Bool-cases (leb room 1)) [
      | inl full ↦ rw (other, read_line) (rw kept (rw full (omega arith)))
      | inr fits ↦
          rw (other, read_line)
            (rw kept (rw fits (omega (arith, read_line-length (room - 1) true file))))
    ]
  ]
]

pub Next-cases :
    {S : Type 0} (next : Next S)
    → ((s : S) × (next ≡ go s)) ⊎ ((result : Bool) × (s : S) × (next ≡ stop result s))
Next-cases (go s) = inl (s, refl)
Next-cases (stop result s) = inr (result, s, refl)

module _ {Time Store : Type 0} (env : Env Time Store) (cuepath : Bytes) (directory : ℤ) where
  -- More rounds than there are bytes left change nothing.
  pub cue_loop-length :
      (nested : Bytes → Store → Run (Bool × Store)) (m n : ℕ) (text : Bytes) (s : Sheet Time Store)
      → length text < m
      → length text < n
      → cue_loop env cuepath directory nested m text s
        ≡ cue_loop env cuepath directory nested n text s
  unfolding cue_loop
  cue_loop-length nested zero n text s h k = absurd (omega arith)
  cue_loop-length nested (suc m) zero text s h k = absurd (omega arith)
  cue_loop-length nested (suc m) (suc n) text s h k =
      let shorter = read_line-length 1023 false text in
      elim (List-cases (read_line 1023 false text).0) [
        | inl e ↦ rw (e, cue_loop) refl
        | inr (c, cs, e) ↦
            let rest = (read_line 1023 false text).1 in
            let less : 1 + length rest ≤ length text =
              omega (arith, shorter, ap (λ (l : Bytes). length l) e) in
            rw (e, cue_loop)
              (bind-ext (cue_line env cuepath directory nested (c ∷ cs) s) _ _ (λ next.
                elim (Next-cases next) [
                  | inl (s', f) ↦
                      rw f (cue_loop-length nested m n rest s' (omega arith) (omega arith))
                  | inr (result, s', f) ↦ rw f refl
                ]))
      ]

abbrev pub sheet_a : Bytes
sheet_a = codes "/m/a.cue"

abbrev pub sheet_b : Bytes
sheet_b = codes "/m/b.cue"

abbrev pub text_a : Bytes
text_a = codes "FILE \"b.wav\" WAVE"

abbrev pub text_b : Bytes
text_b = codes "FILE \"a.wav\" WAVE"

module _ {Time Store : Type 0} (env : Env Time Store) (directory : ℤ) (t u : ℤ)
    (content_a : env.content sheet_a ≡ some text_a) (content_b : env.content sheet_b ≡ some text_b)
    (stat_a : env.stat sheet_a ≡ some t) (stat_b : env.stat sheet_b ≡ some t)
    (audio_a : env.stat (codes "/m/a.wav") ≡ some u)
    (audio_b : env.stat (codes "/m/b.wav") ≡ some u) where
  cue_read-both :
      (depth : ℕ)
      → ((store : Store) → cue_read env directory depth sheet_a store ≡ fault endless)
        × ((store : Store) → cue_read env directory depth sheet_b store ≡ fault endless)
  unfolding cue_read cue_loop cue_line read_line scan_word word_of cue_text read_string read_from
      skip_bom cue_file upto_last find_last equal
  cue_read-both zero = (λ store. refl, λ store. refl)
  cue_read-both (suc depth) =
      let (a, b) = cue_read-both depth in
      (
        λ store. rw (content_a, cue_read) (rw audio_b (rw stat_b (rw (b store) refl))),
        λ store. rw (content_b, cue_read) (rw audio_a (rw stat_a (rw (a store) refl))),
      )

-- Two sheets that name each other's audio files never end: where `a.cue` stands for `b.wav`, `b.cue` for
-- `a.wav`, and all four files exist, reading either calls for the other, at any depth.
pub cue_read-endless :
    {Time Store : Type 0} (env : Env Time Store) (directory t u : ℤ)
    → env.content sheet_a ≡ some text_a
    → env.content sheet_b ≡ some text_b
    → env.stat sheet_a ≡ some t
    → env.stat sheet_b ≡ some t
    → env.stat (codes "/m/a.wav") ≡ some u
    → env.stat (codes "/m/b.wav") ≡ some u
    → (depth : ℕ) (store : Store) → cue_read env directory depth sheet_a store ≡ fault endless
cue_read-endless env directory t u c d e f g h depth =
    (cue_read-both env directory t u c d e f g h depth).0
