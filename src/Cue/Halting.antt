-- ===== src/Cue/Halting.antt =====
-- src/cue.c: the reading of a sheet ends.
use musicd.Base.{
  List-cases, Option, none, some, is_some, ltb, ◌++◌, ℕ, zero, suc, ◌+◌, ◌≤◌, ◌<◌, ◌≡◌, ap, inl,
  inr, Bool-cases, Option-cases, Bool, true, false, ◌||◌, [], ◌∷◌, arith, Bytes, codes, length,
  drop, peek, ◌==◌, equal, ℤ, if◌then◌else◌,
}
use musicd.Memory.{Run, done, fault, endless, ◌>>=◌}
use musicd.Cue.{close, read_line, read_string, read_from, scan_word, upto_last}
use musicd.Cue.Sheet.{
  Env, Sheet, was_set, stored, fits, is_first, cue_performer, cue_title, cue_file, cue_track,
  cue_index, cue_text, cue_other, cue_line, cue_end, cue_loop,
}
use musicd.Cue.Ending.{read_line-length, Next-cases}

-- The run does not go on for ever: it returns, or ends with another fault.
abbrev pub Halts : {A : Type 0} → Run A → Type 0
Halts run = ¬ (run ≡ fault endless)

done-Halts : {A : Type 0} (a : A) → Halts (done a)
done-Halts a h = absurd (ground (arith, h))

bind-Halts :
    {A B : Type 0} (m : Run A) (f : A → Run B) → Halts m → ((a : A) → Halts (f a)) → Halts (m >>= f)
bind-Halts (done a) f h k = k a
bind-Halts (fault e) f h k = λ e'. h (ground (arith, e'))

was_set-Halts : {A : Type 0} (o : Option A) → Halts (was_set o)
was_set-Halts none h = absurd (ground (arith, h))
was_set-Halts (some a) h = absurd (ground (arith, h))

fits-Halts : (o : Option Bytes) → Halts (fits o)
fits-Halts none h = absurd (ground (arith, h))
fits-Halts (some word) h = absurd (ground (arith, h))

close-Halts : (size read : ℕ) (dst : Bytes) → Halts (close size read dst)
close-Halts size read dst h = absurd (ground (arith, h))

read_from-Halts : (size read : ℕ) (dst p : Bytes) → Halts (read_from size read dst p)
unfolding read_from
read_from-Halts size read dst [] = λ h. absurd (ground (arith, h))
read_from-Halts size read dst (c ∷ []) = elim (Bool-cases (c == b'"')) [
  | inl e ↦ rw (e, read_from) (close-Halts size read dst)
  | inr e ↦ rw (e, read_from) (λ h. absurd (ground (arith, h)))
]
read_from-Halts size read dst (c ∷ d ∷ p) = elim (Bool-cases (c == b'"')) [
  | inl e ↦ rw (e, read_from) (close-Halts size read dst)
  | inr e ↦ elim (Bool-cases (c == 92)) [
    | inl b ↦ elim (Bool-cases (d == b'"')) [
      | inl q ↦ rw (e, read_from, b, q) (close-Halts size (read + 1) (dst ++ (b'"' ∷ [])))
      | inr q ↦ elim (Bool-cases (ltb (length dst + 1) size)) [
        | inl l ↦
            rw (e, read_from, b, q, l) (read_from-Halts size (read + 2) (dst ++ (92 ∷ d ∷ [])) p)
        | inr l ↦ rw (e, read_from, b, q, l) (λ h. absurd (ground (arith, h)))
      ]
    ]
    | inr b ↦ elim (Bool-cases (ltb (length dst) size)) [
      | inl l ↦ rw (e, read_from, b, l) (read_from-Halts size (read + 1) (dst ++ (c ∷ [])) (d ∷ p))
      | inr l ↦ rw (e, read_from, b, l) (λ h. absurd (ground (arith, h)))
    ]
  ]
]

read_string-Halts : (size : ℕ) (p : Bytes) → Halts (read_string size p)
unfolding read_string
read_string-Halts size [] = λ h. absurd (ground (arith, h))
read_string-Halts size (c ∷ p) = elim (Bool-cases (c == b'"')) [
  | inl e ↦ rw (e, read_string) (read_from-Halts size 1 [] p)
  | inr e ↦ rw (e, read_string) (read_from-Halts size 0 [] (c ∷ p))
]

Bool-Halts : {A : Type 0} (b : Bool) (t e : Run A) → Halts t → Halts e → Halts (if b then t else e)
Bool-Halts true t e h k = h
Bool-Halts false t e h k = k

module _ {Time Store : Type 0} (env : Env Time Store) (cuepath : Bytes) (directory : ℤ)
    (nested : Bytes → Store → Run (Bool × Store))
    (nested_halts : (path : Bytes) (store : Store) → Halts (nested path store)) where
  cue_performer-Halts : (s : Sheet Time Store) → Halts (cue_performer env cuepath directory s)
  unfolding cue_performer
  cue_performer-Halts s = elim (Bool-cases s.header_read) [
    | inr e ↦
        rw (e, cue_performer)
          (bind-Halts (was_set s.string1) _ (was_set-Halts s.string1) (λ text. done-Halts _))
    | inl e ↦ elim (Option-cases s.track) [
      | inl t ↦ rw (e, cue_performer, t) (done-Halts s)
      | inr (track, t) ↦
          rw (e, cue_performer, t)
            (bind-Halts (was_set s.string1) _ (was_set-Halts s.string1) (λ text. done-Halts _))
    ]
  ]

  cue_title-Halts : (s : Sheet Time Store) → Halts (cue_title env cuepath directory s)
  unfolding cue_title
  cue_title-Halts s = elim (Bool-cases s.header_read) [
    | inr e ↦
        rw (e, cue_title)
          (bind-Halts (was_set s.string1) _ (was_set-Halts s.string1) (λ text. done-Halts _))
    | inl e ↦ elim (Option-cases s.track) [
      | inl t ↦ rw (e, cue_title, t) (done-Halts s)
      | inr (track, t) ↦
          rw (e, cue_title, t)
            (bind-Halts (was_set s.string1) _ (was_set-Halts s.string1) (λ text. done-Halts _))
    ]
  ]

  cue_file-Halts : (s : Sheet Time Store) → Halts (cue_file env cuepath directory nested s)
  unfolding cue_file
  cue_file-Halts s = elim (Bool-cases (is_some s.file_track)) [
    | inl e ↦ rw (e, cue_file) (done-Halts _)
    | inr e ↦
        rw (e, cue_file)
          (bind-Halts (was_set s.string1) _ (was_set-Halts s.string1) (λ text.
            let path = upto_last b'/' cuepath ++ (codes "/" ++ text) in
            let path2 = upto_last b'.' path ++ codes ".cue" in
            elim (Option-cases (env.stat path)) [
              | inl n ↦ rw n (done-Halts _)
              | inr (mtime, n) ↦ elim (Bool-cases (equal path2 cuepath)) [
                | inl q ↦ rw (n, q) (done-Halts _)
                | inr q ↦ elim (Option-cases (env.stat path2)) [
                  | inl m ↦ rw (n, q, m) (done-Halts _)
                  | inr (mtime2, m) ↦
                      rw (n, q, m)
                        (bind-Halts (nested path2 s.store) _ (nested_halts path2 s.store)
                          (λ r. done-Halts _))
                ]
              ]
            ]))
  ]

  cue_track-Halts :
      (ptr : Bytes) (s : Sheet Time Store) → Halts (cue_track env cuepath directory ptr s)
  unfolding cue_track
  cue_track-Halts ptr s =
      bind-Halts (fits (env.scan_track ptr).kind) _ (fits-Halts (env.scan_track ptr).kind) (λ kind.
        bind-Halts (was_set (stored (env.scan_track ptr).number s.fields.number)) _
          (was_set-Halts (stored (env.scan_track ptr).number s.fields.number))
          (λ number. done-Halts _))

  cue_index-Halts :
      (ptr : Bytes) (s : Sheet Time Store) → Halts (cue_index env cuepath directory ptr s)
  unfolding cue_index
  cue_index-Halts ptr s =
      bind-Halts (was_set (stored (env.scan_index ptr).number s.fields.number)) _
        (was_set-Halts (stored (env.scan_index ptr).number s.fields.number))
        (λ number. elim (Bool-cases (is_first env cuepath directory number)) [
          | inr e ↦ rw e (done-Halts _)
          | inl e ↦ rw e (
              bind-Halts (was_set (stored (env.scan_index ptr).mins s.fields.mins)) _
                (was_set-Halts (stored (env.scan_index ptr).mins s.fields.mins))
                (λ mins.
                  bind-Halts (was_set (stored (env.scan_index ptr).secs s.fields.secs)) _
                    (was_set-Halts (stored (env.scan_index ptr).secs s.fields.secs))
                    (λ secs.
                      bind-Halts (was_set (stored (env.scan_index ptr).frames s.fields.frames)) _
                        (was_set-Halts (stored (env.scan_index ptr).frames s.fields.frames))
                        (λ frames.
                          bind-Halts (was_set s.track) _ (was_set-Halts s.track)
                            (λ track. done-Halts _)))))
        ])

  cue_other-Halts :
      (instr ptr : Bytes) (s : Sheet Time Store)
      → Halts (cue_other env cuepath directory instr ptr s)
  unfolding cue_other
  cue_other-Halts instr ptr s = elim (Bool-cases (is_some s.file_track)) [
    | inr e ↦ rw (e, cue_other) (done-Halts _)
    | inl e ↦ elim (Bool-cases (equal instr (codes "TRACK"))) [
      | inl t ↦
          rw (e, cue_other, t)
            (bind-Halts (cue_track env cuepath directory ptr s) _ (cue_track-Halts ptr s)
              (λ s'. done-Halts _))
      | inr t ↦ elim (Bool-cases (equal instr (codes "INDEX"))) [
        | inl x ↦
            rw (e, cue_other, t, x)
              (bind-Halts (cue_index env cuepath directory ptr s) _ (cue_index-Halts ptr s)
                (λ s'. done-Halts _))
        | inr x ↦ rw (e, cue_other, t, x) (done-Halts _)
      ]
    ]
  ]

  cue_text-Halts :
      (ptr : Bytes) (s : Sheet Time Store) → Halts (cue_text env cuepath directory ptr s)
  unfolding cue_text
  cue_text-Halts ptr s = elim (Bool-cases (peek ptr == b'"')) [
    | inr e ↦ rw (e, cue_text) (done-Halts _)
    | inl e ↦
        rw (e, cue_text)
          (bind-Halts (read_string 512 ptr) _ (read_string-Halts 512 ptr) (λ r. done-Halts _))
  ]

  cue_line-Halts :
      (line : Bytes) (s : Sheet Time Store) → Halts (cue_line env cuepath directory nested line s)
  unfolding cue_line
  cue_line-Halts line s =
      let instr = scan_word line in
      let behind = drop (length instr + 1) line in
      Bool-Halts (length instr == 0 || equal instr (codes "REM")) _ _ (done-Halts _) (
        Bool-Halts (ltb (length line) (length instr + 1)) _ _ (λ h. absurd (ground (arith, h)))
          (bind-Halts (cue_text env cuepath directory behind s) _ (cue_text-Halts behind s) (λ r.
            elim (Bool-cases (equal instr (codes "PERFORMER"))) [
              | inl p ↦ rw p (
                  bind-Halts (cue_performer env cuepath directory r.1) _ (cue_performer-Halts r.1)
                    (λ s''. cue_other-Halts instr r.0 s''))
              | inr p ↦ elim (Bool-cases (equal instr (codes "TITLE"))) [
                | inl t ↦
                    rw (p, t)
                      (bind-Halts (cue_title env cuepath directory r.1) _ (cue_title-Halts r.1)
                        (λ s''. cue_other-Halts instr r.0 s''))
                | inr t ↦ elim (Bool-cases (equal instr (codes "FILE"))) [
                  | inl f ↦ rw (p, t, f) (cue_file-Halts r.1)
                  | inr f ↦ rw (p, t, f) (cue_other-Halts instr r.0 r.1)
                ]
              ]
            ])))

  cue_end-Halts : (s : Sheet Time Store) → Halts (cue_end env cuepath directory s)
  unfolding cue_end
  cue_end-Halts s = elim (Option-cases s.track) [
    | inl e ↦
        rw (e, cue_end)
          (Bool-Halts (is_some s.prev_track) _ _ (λ h. absurd (ground (arith, h))) (done-Halts _))
    | inr (track, e) ↦
        rw (e, cue_end)
          (bind-Halts (was_set s.file_track) _ (was_set-Halts s.file_track)
            (λ duration. done-Halts _))
  ]

  -- The loop over the lines of a sheet, with more rounds than there are bytes left, does not run
  -- out of them, provided that the reading of the sheets it names does not: it ends by itself, on every
  -- text and from every state.
  pub cue_loop-Halts :
      (rounds : ℕ) (text : Bytes) (s : Sheet Time Store)
      → length text < rounds
      → Halts (cue_loop env cuepath directory nested rounds text s)
  unfolding cue_loop
  cue_loop-Halts zero text s h = absurd (omega (arith, h))
  cue_loop-Halts (suc rounds) text s h =
      let shorter = read_line-length 1023 false text in
      elim (List-cases (read_line 1023 false text).0) [
        | inl e ↦
            rw (e, cue_loop)
              (bind-Halts (cue_end env cuepath directory s) _ (cue_end-Halts s)
                (λ store. done-Halts _))
        | inr (c, cs, e) ↦
            let rest = (read_line 1023 false text).1 in
            let less : 1 + length rest ≤ length text =
              omega (arith, shorter, ap (λ (l : Bytes). length l) e) in
            rw (e, cue_loop)
              (bind-Halts (cue_line env cuepath directory nested (c ∷ cs) s) _
                (cue_line-Halts (c ∷ cs) s)
                (λ next. elim (Next-cases next) [
                  | inl (s', f) ↦ rw f (cue_loop-Halts rounds rest s' (omega (arith, less, h)))
                  | inr (result, s', f) ↦ rw f (
                      bind-Halts (cue_end env cuepath directory s') _ (cue_end-Halts s')
                        (λ store. done-Halts _))
                ]))
      ]
