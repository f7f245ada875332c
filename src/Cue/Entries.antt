-- ===== src/Cue/Entries.antt =====
-- src/cue.c: sheets whose tracks have a TRACK and an INDEX instruction each.
use musicd.Base.{
  ℕ, zero, suc, ◌*◌, ◌-◌, ◌<◌, ◌≡◌, refl, ap, ◌∙◌, Bool, true, false, List, [], ◌∷◌, ◌++◌, map,
  Option, none, some, arith, All, Bytes, codes, peek, length, ltb, leb, ◌==◌, ℤ, pos, inl, inr,
  Option-cases, equal,
}
use musicd.Memory.{Run, done, ◌>>=◌}
use musicd.Cue.{read_line, scan_word, word_of}
use musicd.Cue.Sheet.{
  Track, Env, Sheet, go, stored, fits, begin_track, cue_track, cue_index, cue_text, cue_other,
  cue_line, cue_end, cue_loop,
}
use musicd.Cue.Tracks.{with_durations, add_tracks}

-- No byte of the text ends a line or is skipped.
abbrev pub IsPlain : Bytes → Type 0
IsPlain = All (λ c. ((c == 10) ≡ false) × ((c == 13) ≡ false))

read_line-begun :
    (room : ℕ) (line rest : Bytes)
    → IsPlain line
    → length line < room
    → read_line room true (line ++ (10 ∷ rest)) ≡ (line, rest)
unfolding read_line
read_line-begun room [] rest plain fit = refl
read_line-begun room (c ∷ line) rest ((n, r), plain) fit =
    let more : leb room 1 ≡ false = ground arith in
    rw (n, read_line)
      (rw r (rw more (rw (read_line-begun (room - 1) line rest plain (omega (arith, fit))) refl)))

-- A track as two lines of a sheet, behind the words TRACK and INDEX, and what `sscanf` reads in them.
pub record Entry : Type 0 where
  pub track_ptr : Bytes
  pub index_ptr : Bytes
  pub number : ℤ
  pub kind : Option Bytes
  pub mins : ℤ
  pub secs : ℤ
  pub frames : ℤ

abbrev pub text_of : List Entry → Bytes
text_of [] = []
text_of (e ∷ entries) =
    codes "TRACK "
    ++ (e.track_ptr ++ (10 ∷ (codes "INDEX " ++ (e.index_ptr ++ (10 ∷ text_of entries)))))

-- A rest of a line: it fits, and does not begin with a quote.
pub record IsRest (ptr : Bytes) : Type 0 where
  pub plain : IsPlain ptr
  pub short : length ptr < 1000
  pub unquoted : (peek ptr == b'"') ≡ false

module _ {Time Store : Type 0} (env : Env Time Store) where
  pub record IsEntry (e : Entry) : Type 0 where
    pub track_rest : IsRest e.track_ptr
    pub index_rest : IsRest e.index_ptr
    pub scans_number : (env.scan_track e.track_ptr).number ≡ some e.number
    pub scans_kind : (env.scan_track e.track_ptr).kind ≡ e.kind
    pub scans_first : (env.scan_index e.index_ptr).number ≡ some (pos 1)
    pub scans_mins : (env.scan_index e.index_ptr).mins ≡ some e.mins
    pub scans_secs : (env.scan_index e.index_ptr).secs ≡ some e.secs
    pub scans_frames : (env.scan_index e.index_ptr).frames ≡ some e.frames
    pub kind_fits : fits e.kind ≡ done e.kind

module _ {Time Store : Type 0} (env : Env Time Store) (cuepath : Bytes) (directory : ℤ)
    (nested : Bytes → Store → Run (Bool × Store)) where
  track_line :
      (ptr : Bytes) (total : Time) (s : Sheet Time Store)
      → (peek ptr == b'"') ≡ false
      → s.file_track ≡ some total
      → cue_line env cuepath directory nested (codes "TRACK " ++ ptr) s
        ≡ (cue_track env cuepath directory ptr s >>= λ s'. done (go s'))
  unfolding cue_line cue_text cue_other scan_word word_of equal
  track_line ptr total s unquoted opened =
      let whole : ltb (length (codes "TRACK " ++ ptr)) 6 ≡ false = ground arith in
      rw whole (rw (unquoted, cue_text) (rw (opened, cue_other) refl))

  index_line :
      (ptr : Bytes) (total : Time) (s : Sheet Time Store)
      → (peek ptr == b'"') ≡ false
      → s.file_track ≡ some total
      → cue_line env cuepath directory nested (codes "INDEX " ++ ptr) s
        ≡ (cue_index env cuepath directory ptr s >>= λ s'. done (go s'))
  unfolding cue_line cue_text cue_other scan_word word_of equal
  index_line ptr total s unquoted opened =
      let whole : ltb (length (codes "INDEX " ++ ptr)) 6 ≡ false = ground arith in
      rw whole (rw (unquoted, cue_text) (rw (opened, cue_other) refl))

  -- The track of an entry in the sheet, and what its two instructions make of the variables.
  abbrev pub track_of : Sheet Time Store → Entry → Track Time
  track_of s e = record {
    file = s.path;
    cuefile = cuepath;
    number = e.number;
    title = none;
    artist = s.albumartist;
    album = s.album;
    albumartist = s.albumartist;
    start = env.time_of e.mins e.secs e.frames;
    duration = env.zero_time;
  }

  abbrev new_track : Sheet Time Store → Entry → Track Time
  new_track s e = record (track_of s e) { start = env.zero_time }

  abbrev after_track : Entry → Sheet Time Store → Sheet Time Store
  after_track e s = begin_track env cuepath directory (new_track s e) (record s {
    fields = record s.fields { number = some e.number };
    string1 = stored e.kind s.string1;
  })

  abbrev after_index : Entry → Track Time → Sheet Time Store → Sheet Time Store
  after_index e track s = record s {
    fields = record {
      number = some (pos 1);
      mins = some e.mins;
      secs = some e.secs;
      frames = some e.frames;
    };
    track = some (record track { start = env.time_of e.mins e.secs e.frames });
  }

  abbrev after : Entry → Sheet Time Store → Sheet Time Store
  after e s = after_index e (new_track s e) (after_track e s)

  abbrev read_entries : List Entry → Sheet Time Store → Sheet Time Store
  read_entries [] s = s
  read_entries (e ∷ entries) s = read_entries entries (after e s)

  cue_track-after :
      (e : Entry) (s : Sheet Time Store)
      → IsEntry env e
      → cue_track env cuepath directory e.track_ptr s ≡ done (after_track e s)
  unfolding cue_track
  cue_track-after e s ok =
      rw (ok.scans_number, cue_track)
        (rw ok.scans_kind (
          rw ok.kind_fits (
            ap
              (λ (index : Option ℤ). done (
                begin_track env cuepath directory (new_track s e) (record s {
                  fields = record s.fields { number = stored index s.fields.number };
                  string1 = stored e.kind s.string1;
                })))
              ok.scans_number)))

  cue_index-after :
      (e : Entry) (track : Track Time) (s : Sheet Time Store)
      → IsEntry env e
      → s.track ≡ some track
      → cue_index env cuepath directory e.index_ptr s ≡ done (after_index e track s)
  unfolding cue_index
  cue_index-after e track s ok at =
      rw (ok.scans_first, cue_index)
        (rw ok.scans_mins (rw ok.scans_secs (rw ok.scans_frames (rw at (rw ok.scans_first refl)))))

  begin_track-track :
      (new : Track Time) (s : Sheet Time Store)
      → ((begin_track env cuepath directory new s).track ≡ some new)
        × ((begin_track env cuepath directory new s).file_track ≡ s.file_track)
  unfolding begin_track
  begin_track-track new s = elim (Option-cases s.track) [
    | inl e ↦ rw (e, begin_track) (refl, refl)
    | inr (track, e) ↦ elim (Option-cases s.prev_track) [
      | inl p ↦ rw (e, begin_track, p) (refl, refl)
      | inr (prev, p) ↦ rw (e, begin_track, p) (refl, refl)
    ]
  ]

  -- The lines of an entry are read, one after the other.
  read_track :
      (ptr rest : Bytes)
      → IsRest ptr
      → read_line 1023 false (codes "TRACK " ++ (ptr ++ (10 ∷ rest)))
        ≡ (codes "TRACK " ++ ptr, rest)
  unfolding read_line
  read_track ptr rest ok =
      rw (read_line-begun 1017 ptr rest ok.plain (omega (arith, ok.short))) refl

  read_index :
      (ptr rest : Bytes)
      → IsRest ptr
      → read_line 1023 false (codes "INDEX " ++ (ptr ++ (10 ∷ rest)))
        ≡ (codes "INDEX " ++ ptr, rest)
  unfolding read_line
  read_index ptr rest ok =
      rw (read_line-begun 1017 ptr rest ok.plain (omega (arith, ok.short))) refl

  -- One round of the loop, on a line that is read and does not end it.
  cue_loop-line :
      (rounds : ℕ) (text rest : Bytes) (c : ℕ) (line : Bytes) (s s' : Sheet Time Store)
      → read_line 1023 false text ≡ (c ∷ line, rest)
      → cue_line env cuepath directory nested (c ∷ line) s ≡ done (go s')
      → cue_loop env cuepath directory nested (suc rounds) text s
        ≡ cue_loop env cuepath directory nested rounds rest s'
  unfolding cue_loop
  cue_loop-line rounds text rest c line s s' e f =
      rw (e, cue_loop)
        (rw f (ap (λ (w : Bytes × Bytes). cue_loop env cuepath directory nested rounds w.1 s') e))

  cue_loop-entries :
      (entries : List Entry) (rounds : ℕ) (total : Time) (s : Sheet Time Store)
      → All (IsEntry env) entries
      → s.file_track ≡ some total
      → 2 * length entries < rounds
      → cue_loop env cuepath directory nested rounds (text_of entries) s
        ≡ (cue_end env cuepath directory (read_entries entries s) >>= λ store. done (true, store))
  unfolding cue_loop read_line
  cue_loop-entries entries zero total s ok opened h = absurd (omega (arith, h))
  cue_loop-entries [] (suc rounds) total s ok opened h = refl
  cue_loop-entries (e ∷ entries) (suc zero) total s ok opened h = absurd (omega (arith, h))
  cue_loop-entries (e ∷ entries) (suc (suc rounds)) total s (ok, oks) opened h =
      let (at, same) = begin_track-track (new_track s e) (record s {
        fields = record s.fields { number = some e.number };
        string1 = stored e.kind s.string1;
      }) in
      let behind : Bytes = codes "INDEX " ++ (e.index_ptr ++ (10 ∷ text_of entries)) in
      cue_loop-line (suc rounds) (text_of (e ∷ entries)) behind b'T' (codes "RACK " ++ e.track_ptr)
        s (after_track e s) (read_track e.track_ptr behind ok.track_rest)
        (track_line e.track_ptr total s ok.track_rest.unquoted opened
          ∙ rw (cue_track-after e s ok) refl)
      ∙ cue_loop-line rounds behind (text_of entries) b'I' (codes "NDEX " ++ e.index_ptr)
          (after_track e s) (after e s) (read_index e.index_ptr (text_of entries) ok.index_rest)
          (index_line e.index_ptr total (after_track e s) ok.index_rest.unquoted (same ∙ opened)
            ∙ rw (cue_index-after e (new_track s e) (after_track e s) ok at) refl)
      ∙ cue_loop-entries entries rounds total (after e s) oks (same ∙ opened) (omega (arith, h))

  -- With two tracks pending.
  end-pending :
      (total : Time) (entries : List Entry) (prev track : Track Time) (s : Sheet Time Store)
      → s.file_track ≡ some total
      → s.prev_track ≡ some prev
      → s.track ≡ some track
      → cue_end env cuepath directory (read_entries entries s)
        ≡ done (
            add_tracks env cuepath directory
              (with_durations env cuepath directory total (prev ∷ track ∷ map (track_of s) entries))
              s.store)
  unfolding cue_end begin_track
  end-pending total [] prev track s h k l = rw l (rw h (rw k refl))
  end-pending total (e ∷ entries) prev track s h k l =
      rw l (rw k (end-pending total entries track (track_of s e) _ h refl refl))

  begin_track-first :
      (new : Track Time) (s : Sheet Time Store)
      → s.track ≡ none
      → begin_track env cuepath directory new s ≡ record s { track = some new }
  unfolding begin_track
  begin_track-first new s l = rw (l, begin_track) refl

  end-entries :
      (total : Time) (entries : List Entry) (s : Sheet Time Store)
      → s.file_track ≡ some total
      → s.prev_track ≡ none
      → s.track ≡ none
      → cue_end env cuepath directory (read_entries entries s)
        ≡ done (
            add_tracks env cuepath directory
              (with_durations env cuepath directory total (map (track_of s) entries))
              s.store)
  unfolding cue_end begin_track
  end-entries total [] s h k l = rw l (rw k refl)
  end-entries total (e ∷ []) s h k l =
      let read = record s {
        fields = record s.fields { number = some e.number };
        string1 = stored e.kind s.string1;
      } in
      ap (λ t. cue_end env cuepath directory (after_index e (new_track s e) t))
        (begin_track-first (new_track s e) read l)
      ∙ rw h (rw k refl)
  end-entries total (e ∷ f ∷ entries) s h k l =
      rw l (rw k (end-pending total entries (track_of s e) (track_of s f) _ h refl refl))

  -- Behind the line that names the audio file, a sheet of TRACK lines each followed by the line with
  -- its first INDEX, as `sscanf` reads them: the loop over its lines ends, and has added the tracks to
  -- the library in their order, each once, with its own number and start and its duration, which is up
  -- to the start of the next, and for the last up to the end of the file. A line holds no line end and
  -- fits its buffer, and what stands behind its first word begins with no quote.
  pub cue_loop-add_tracks :
      (entries : List Entry) (rounds : ℕ) (total : Time) (s : Sheet Time Store)
      → All (IsEntry env) entries
      → s.file_track ≡ some total
      → s.prev_track ≡ none
      → s.track ≡ none
      → 2 * length entries < rounds
      → cue_loop env cuepath directory nested rounds (text_of entries) s
        ≡ done (
          true,
          add_tracks env cuepath directory
              (with_durations env cuepath directory total (map (track_of s) entries))
              s.store,
        )
  cue_loop-add_tracks entries rounds total s ok opened no_prev no_track enough =
      cue_loop-entries entries rounds total s ok opened enough
      ∙ ap (λ run. run >>= λ store. done (true, store))
          (end-entries total entries s opened no_prev no_track)
