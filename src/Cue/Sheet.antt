-- ===== src/Cue/Sheet.antt =====
-- src/cue.c: `cue_read`, instruction by instruction. `Store` is what the library's functions change.
use musicd.Base.{
  ℕ, zero, suc, ◌+◌, Bool, true, false, ◌||◌, [], ◌∷◌, ◌++◌, Option, none, some, is_some, ltb, ◌==◌,
  if◌then◌else◌, Bytes, codes, equal, length, drop, peek, ℤ, pos, is_positive,
}
use musicd.Memory.{Run, done, fault, out_of_bounds, endless, ◌>>=◌}
use musicd.Cue.{read_line, read_string, scan_word, upto_last, skip_bom}

-- `track_t`: the fields that are set here. A title of `none` is NULL.
pub record Track (Time : Type 0) : Type 0 where
  pub file : Bytes
  pub cuefile : Bytes
  pub number : ℤ
  pub title : Option Bytes
  pub artist : Bytes
  pub album : Bytes
  pub albumartist : Bytes
  pub start : Time
  pub duration : Time

-- What `sscanf` stored, field by field.
pub record TrackFields : Type 0 where
  pub number : Option ℤ
  pub kind : Option Bytes

pub record IndexFields : Type 0 where
  pub number : Option ℤ
  pub mins : Option ℤ
  pub secs : Option ℤ
  pub frames : Option ℤ

pub record Env (Time Store : Type 0) : Type 0 where
  -- the content of a file that can be opened, and the time of the last change of one that exists
  pub content : Bytes → Option Bytes
  pub stat : Bytes → Option ℤ
  pub scan_track : Bytes → TrackFields
  pub scan_index : Bytes → IndexFields
  pub zero_time : Time
  pub time_of : ℤ → ℤ → ℤ → Time
  pub minus : Time → Time → Time
  -- the duration of the track that `track_from_path` gives
  pub track_from_path : Bytes → Option Time
  pub library_file : Bytes → ℤ → Store → ℤ × Store
  pub library_file_clear : ℤ → Store → Store
  pub library_file_mtime_set : ℤ → ℤ → Store → Store
  pub library_track_add : Track Time → ℤ → Store → Store
  pub scan_track_added : Store → Store

-- The variables of `cue_read` and what the calls changed. A variable not yet set is `none`.
pub record Sheet (Time Store : Type 0) : Type 0 where
  pub header_read : Bool
  pub album : Bytes
  pub albumartist : Bytes
  pub string1 : Option Bytes
  pub path : Bytes
  pub fields : IndexFields
  pub file_track : Option Time
  pub prev_track : Option (Track Time)
  pub track : Option (Track Time)
  pub store : Store

-- What an instruction ends with: the next one, or `break` with the result.
pub data Next (S : Type 0) : Type 0 where
  go : S → Next S
  stop : Bool → S → Next S

abbrev pub was_set {ℓ} : {A : Type ℓ} → Option A → Run A
was_set none = fault out_of_bounds
was_set (some a) = done a

abbrev pub stored {ℓ} : {A : Type ℓ} → Option A → Option A → Option A
stored none old = old
stored (some a) old = some a

-- `%s` stores a word of any length: from the size of `string1` on, behind it.
abbrev pub fits : Option Bytes → Run (Option Bytes)
fits none = done none
fits (some word) = if ltb (length word) 512 then done (some word) else fault out_of_bounds

module _ {Time Store : Type 0} (env : Env Time Store) (cuepath : Bytes) (directory : ℤ) where
  abbrev pub add_track : Track Time → Store → Store
  add_track track store = env.scan_track_added (env.library_track_add track directory store)

  -- The first track is given the duration up to the start of the second, and added.
  abbrev pub add_timed : Track Time → Track Time → Store → Store
  add_timed prev track store =
      add_track (record prev { duration = env.minus track.start prev.start }) store

  unfoldable pub cue_performer : Sheet Time Store → Run (Sheet Time Store)
  cue_performer s = elim s.header_read [
    | false ↦ do text ← was_set s.string1; done (record s { albumartist = text })
    | true ↦ elim s.track [
      | none ↦ done s
      | some track ↦ do
        text ← was_set s.string1
        done (record s { track = some (record track { artist = text }) })
    ]
  ]

  unfoldable pub cue_title : Sheet Time Store → Run (Sheet Time Store)
  cue_title s = elim s.header_read [
    | false ↦ do text ← was_set s.string1; done (record s { album = text })
    | true ↦ elim s.track [
      | none ↦ done s
      | some track ↦ do
        text ← was_set s.string1
        done (record s { track = some (record track { title = some text }) })
    ]
  ]

  -- From `track_from_path` on; `mtime` is that of the last file that `stat` was asked for.
  unfoldable pub cue_open : Bytes → ℤ → Sheet Time Store → Next (Sheet Time Store)
  cue_open path mtime s = elim (env.track_from_path path) [
    | none ↦ stop true s
    | some duration ↦
        let opened = record s { file_track = some duration } in
        let (file, store) = env.library_file path (pos 0) s.store in
        elim (is_positive file) [
          | true ↦ go (record opened {
            store = env.library_file_mtime_set file mtime (env.library_file_clear file store);
          })
          | false ↦
              let (file', store') = env.library_file path directory store in
              elim (is_positive file') [
                | true ↦
                    go (record opened { store = env.library_file_mtime_set file' mtime store' })
                | false ↦ stop true (record opened { store = store' })
              ]
        ]
  ]

  -- `nested` is `cue_read` of another sheet.
  unfoldable pub cue_file :
      (Bytes → Store → Run (Bool × Store)) → Sheet Time Store → Run (Next (Sheet Time Store))
  unfolding cue_open
  cue_file nested s = elim (is_some s.file_track) [
    | true ↦ done (stop true s)
    | false ↦ do
      text ← was_set s.string1
      let path = upto_last b'/' cuepath ++ (codes "/" ++ text)
      let path2 = upto_last b'.' path ++ codes ".cue"
      let begun = record s { header_read = true; path = path }
      elim (env.stat path) [
        | none ↦ done (stop false begun)
        | some mtime ↦ elim (equal path2 cuepath) [
          | true ↦ done (cue_open path mtime begun)
          | false ↦ elim (env.stat path2) [
            | none ↦ done (cue_open path mtime begun)
            | some mtime2 ↦ do
              (read, store) ← nested path2 s.store
              let after = record begun { store = store }
              done (if read then stop true after else cue_open path mtime2 after)
          ]
        ]
      ]
  ]

  -- A new track: the one before the last is complete now.
  unfoldable pub begin_track : Track Time → Sheet Time Store → Sheet Time Store
  begin_track new s = elim s.track [
    | none ↦ record s { track = some new }
    | some track ↦ elim s.prev_track [
      | none ↦ record s { prev_track = some track; track = some new }
      | some prev ↦ record s {
        prev_track = some track;
        track = some new;
        store = add_timed prev track s.store;
      }
    ]
  ]

  unfoldable pub cue_track : Bytes → Sheet Time Store → Run (Sheet Time Store)
  unfolding begin_track
  cue_track ptr s = do
    let scanned = env.scan_track ptr
    kind ← fits scanned.kind
    let index = stored scanned.number s.fields.number
    number ← was_set index
    let new : Track Time = record {
      file = s.path;
      cuefile = cuepath;
      number = number;
      title = none;
      artist = s.albumartist;
      album = s.album;
      albumartist = s.albumartist;
      start = env.zero_time;
      duration = env.zero_time;
    }
    done (
        begin_track new (record s {
          fields = record s.fields { number = index };
          string1 = stored kind s.string1;
        }))

  abbrev pub is_first : ℤ → Bool
  is_first (pos n) = n == 1
  is_first _ = false

  -- Without a track the start is written through NULL.
  unfoldable pub cue_index : Bytes → Sheet Time Store → Run (Sheet Time Store)
  cue_index ptr s = do
    let scanned = env.scan_index ptr
    let fields : IndexFields = record {
      number = stored scanned.number s.fields.number;
      mins = stored scanned.mins s.fields.mins;
      secs = stored scanned.secs s.fields.secs;
      frames = stored scanned.frames s.fields.frames;
    }
    let s' = record s { fields = fields }
    number ← was_set fields.number
    elim (is_first number) [
      | false ↦ done s'
      | true ↦ do
        mins ← was_set fields.mins
        secs ← was_set fields.secs
        frames ← was_set fields.frames
        track ← was_set s.track
        done (record s' { track = some (record track { start = env.time_of mins secs frames }) })
    ]

  -- The quoted text behind an instruction goes to `string1`, and `ptr` behind it.
  unfoldable pub cue_text : Bytes → Sheet Time Store → Run (Bytes × Sheet Time Store)
  cue_text ptr s = elim (peek ptr == b'"') [
    | false ↦ done (ptr, s)
    | true ↦ do
      (read, text) ← read_string 512 ptr
      done (drop (read + 1) ptr, record s { string1 = some text })
  ]

  -- An instruction whose word is not one of the first three.
  unfoldable pub cue_other : Bytes → Bytes → Sheet Time Store → Run (Next (Sheet Time Store))
  unfolding cue_track cue_index
  cue_other instr ptr s = elim (is_some s.file_track) [
    | false ↦ done (go s)
    | true ↦ elim (equal instr (codes "TRACK")) [
      | true ↦ do s' ← cue_track ptr s; done (go s')
      | false ↦ elim (equal instr (codes "INDEX")) [
        | true ↦ do s' ← cue_index ptr s; done (go s')
        | false ↦ done (go s)
      ]
    ]
  ]

  -- One line. A word that ends the line leaves `ptr` behind the closing NUL.
  unfoldable pub cue_line :
      (Bytes → Store → Run (Bool × Store))
      → Bytes
      → Sheet Time Store
      → Run (Next (Sheet Time Store))
  unfolding cue_performer cue_title cue_file cue_text cue_other
  cue_line nested line s =
      let instr = scan_word line in
      if length instr == 0 || equal instr (codes "REM")
      then done (go s)
      else if ltb (length line) (length instr + 1)
      then fault out_of_bounds
      else do
        (ptr, s') ← cue_text (drop (length instr + 1) line) s
        elim (equal instr (codes "PERFORMER")) [
          | true ↦ do s'' ← cue_performer s'; cue_other instr ptr s''
          | false ↦ elim (equal instr (codes "TITLE")) [
            | true ↦ do s'' ← cue_title s'; cue_other instr ptr s''
            | false ↦ elim (equal instr (codes "FILE")) [
              | true ↦ cue_file nested s'
              | false ↦ cue_other instr ptr s'
            ]
          ]
        ]

  -- The tracks that are left when the loop ends.
  unfoldable pub cue_end : Sheet Time Store → Run Store
  cue_end s = elim s.track [
    | none ↦ if is_some s.prev_track then fault out_of_bounds else done s.store
    | some track ↦ do
      duration ← was_set s.file_track
      let store = elim s.prev_track as (λ p. Store) [
        | none ↦ s.store
        | some prev ↦ add_timed prev track s.store
      ]
      done (add_track (record track { duration = env.minus duration track.start }) store)
  ]

  -- The loop over the lines: an empty one ends it. Each round takes a byte at least, so that one round
  -- more than bytes is enough.
  unfoldable pub cue_loop :
      (Bytes → Store → Run (Bool × Store)) → ℕ → Bytes → Sheet Time Store → Run (Bool × Store)
  unfolding cue_line cue_end
  cue_loop nested zero text s = fault endless
  cue_loop nested (suc rounds) text s =
      let (line, rest) = read_line 1023 false text in
      elim line [
        | [] ↦ do store ← cue_end s; done (true, store)
        | c ∷ cs ↦ do
          next ← cue_line nested (c ∷ cs) s
          elim next [
            | go s' ↦ cue_loop nested rounds rest s'
            | stop result s' ↦ do store ← cue_end s'; done (result, store)
          ]
      ]

abbrev pub new_sheet : {Time Store : Type 0} → Store → Sheet Time Store
new_sheet store = record {
  header_read = false;
  album = [];
  albumartist = [];
  string1 = none;
  path = [];
  fields = record { number = none; mins = none; secs = none; frames = none };
  file_track = none;
  prev_track = none;
  track = none;
  store = store;
}

-- `depth` bounds the sheets that are read for one another.
unfoldable pub cue_read :
    {Time Store : Type 0} → Env Time Store → ℤ → ℕ → Bytes → Store → Run (Bool × Store)
unfolding cue_loop
cue_read env directory zero cuepath store = fault endless
cue_read env directory (suc depth) cuepath store = elim (env.content cuepath) [
  | none ↦ done (false, store)
  | some text ↦
      cue_loop env cuepath directory (cue_read env directory depth) (length text + 1)
        (skip_bom text) (new_sheet store)
]
