-- ===== src/Cue/Tests.antt =====
-- A sheet with two tracks, and instances of the theorems.
use musicd.Base.{
  ℕ, ◌+◌, ◌-◌, ◌≡◌, refl, Bool, true, false, map, All, List, [], ◌∷◌, ◌++◌, Option, none, some,
  arith, Bytes, codes, equal, length, ltb, if◌then◌else◌, ℤ, pos,
}
use musicd.Memory.{Run, done, fault, out_of_bounds, endless}
use musicd.Cue.{
  read_string, read_from, read_line, scan_word, word_of, upto_last, find_last, skip_bom,
}
use musicd.Cue.Text.{read_string-copied, read_string-unclosed}
use musicd.Cue.Sheet.{
  Track, Env, Sheet, new_sheet, begin_track, cue_end, cue_loop, cue_read, cue_line, cue_performer,
  cue_title, cue_file, cue_open, cue_track, cue_index, cue_text, cue_other,
}
use musicd.Cue.Tracks.{with_durations, add_tracks}
use musicd.Cue.Entries.{Entry, IsRest, IsEntry, text_of, track_of, cue_loop-add_tracks}
use musicd.Cue.Halting.{Halts, cue_loop-Halts}
use musicd.Cue.Ending.{sheet_a, sheet_b, text_a, text_b, cue_loop-length, cue_read-endless}

read_string-copied_example : read_string 512 (b'"' ∷ (codes "My Disc" ++ (b'"' ∷ codes " 1"))) ≡ (
    if ltb (length (codes "My Disc")) 512
    then done (1 + length (codes "My Disc"), codes "My Disc")
    else fault out_of_bounds)
read_string-copied_example =
    read_string-copied 512 (codes "My Disc") (codes " 1")
      (refl, (refl, (refl, (refl, (refl, (refl, (refl, tt)))))))

read_string-unclosed_example : read_string 512 (b'"' ∷ codes "Di") ≡ fault out_of_bounds
read_string-unclosed_example = read_string-unclosed 512 (codes "Di") (refl, (refl, tt))

-- An escaped quote ends the string, and an escaped backslash is doubled.
escaped_quote : read_string 512 (codes "\"a\\\"b\"") ≡ done (3, codes "a\"")
unfolding read_string read_from
escaped_quote = refl

escaped_backslash : read_string 512 (codes "\"a\\\\b\"") ≡ done (5, codes "a\\\\b")
unfolding read_string read_from
escaped_backslash = refl

abbrev content : Bytes → Option Bytes
content path =
    if equal path sheet_a then some text_a else if equal path sheet_b then some text_b else none

-- Times in seconds; the store is the tracks added, latest first.
abbrev env : Env ℕ (List (Track ℕ))
env = record {
  content = content;
  stat = λ path. some (pos 7);
  scan_track = λ ptr. record { number = some (pos (length ptr)); kind = some (codes "AUDIO") };
  scan_index = λ ptr. record {
    number = some (pos 1);
    mins = some (pos 2);
    secs = some (pos 30);
    frames = some (pos 0);
  };
  zero_time = 0;
  time_of = λ mins secs frames. 150;
  minus = λ a b. a - b;
  track_from_path = λ path. some 200;
  library_file = λ path directory tracks. (pos 5, tracks);
  library_file_clear = λ file tracks. tracks;
  library_file_mtime_set = λ file mtime tracks. tracks;
  library_track_add = λ track directory tracks. track ∷ tracks;
  scan_track_added = λ tracks. tracks;
}

abbrev track_at : ℤ → ℕ → Track ℕ
track_at number start = record {
  file = codes "/m/a.wav";
  cuefile = sheet_a;
  number = number;
  title = none;
  artist = [];
  album = [];
  albumartist = [];
  start = start;
  duration = 0;
}

abbrev opened : Sheet ℕ (List (Track ℕ))
opened = record (new_sheet []) { file_track = some 200 }

abbrev entry : Bytes → ℤ → Entry
entry track_ptr number = record {
  track_ptr = track_ptr;
  index_ptr = codes "1 2";
  number = number;
  kind = some (codes "AUDIO");
  mins = pos 2;
  secs = pos 30;
  frames = pos 0;
}

abbrev entries : List Entry
entries = entry (codes "1 A") (pos 3) ∷ entry (codes "22 A") (pos 4) ∷ []

index-IsRest : IsRest (codes "1 2")
index-IsRest = record {
  plain = ((refl, refl), ((refl, refl), ((refl, refl), tt)));
  short = omega arith;
  unquoted = refl;
}

entries-IsEntry : All (IsEntry env) entries
entries-IsEntry = (
  record {
    track_rest = record {
      plain = ((refl, refl), ((refl, refl), ((refl, refl), tt)));
      short = omega arith;
      unquoted = refl;
    };
    index_rest = index-IsRest;
    scans_number = refl;
    scans_kind = refl;
    scans_first = refl;
    scans_mins = refl;
    scans_secs = refl;
    scans_frames = refl;
    kind_fits = refl;
  },
  (
    record {
      track_rest = record {
        plain = ((refl, refl), ((refl, refl), ((refl, refl), ((refl, refl), tt))));
        short = omega arith;
        unquoted = refl;
      };
      index_rest = index-IsRest;
      scans_number = refl;
      scans_kind = refl;
      scans_first = refl;
      scans_mins = refl;
      scans_secs = refl;
      scans_frames = refl;
      kind_fits = refl;
    },
    tt,
  ),
)

-- The sheet of a file that cannot be opened.
abbrev unread : Bytes → List (Track ℕ) → Run (Bool × List (Track ℕ))
unread path store = done (false, store)

cue_loop-add_tracks_example :
    cue_loop env sheet_a (pos 1) unread 9 (text_of entries) opened
    ≡ done (
      true,
      add_tracks env sheet_a
          (pos 1)
          (with_durations env sheet_a
            (pos 1)
            200
            (map (track_of env sheet_a (pos 1) unread opened) entries))
          opened.store,
    )
cue_loop-add_tracks_example =
    cue_loop-add_tracks env sheet_a (pos 1) unread entries 9 200 opened entries-IsEntry refl refl
      refl (omega arith)

cue_loop-Halts_example : Halts (cue_loop env sheet_b (pos 1) unread 18 text_b (new_sheet []))
cue_loop-Halts_example =
    cue_loop-Halts env sheet_b (pos 1) unread (λ path store h. absurd (ground (arith, h))) 18 text_b
      (new_sheet []) (omega arith)

cue_loop-length_example :
    cue_loop env sheet_a (pos 1) (cue_read env (pos 1) 0) 9 (codes "REM x") (new_sheet [])
    ≡ cue_loop env sheet_a (pos 1) (cue_read env (pos 1) 0) 6 (codes "REM x") (new_sheet [])
cue_loop-length_example =
    cue_loop-length env sheet_a (pos 1) (cue_read env (pos 1) 0) 9 6 (codes "REM x") (new_sheet [])
      (omega arith) (omega arith)

cue_read-endless_example : cue_read env (pos 1) 3 sheet_a [] ≡ fault endless
unfolding equal
cue_read-endless_example =
    cue_read-endless env (pos 1) (pos 7) (pos 7) refl refl refl refl refl refl 3 []

abbrev newline : Bytes
newline = 10 ∷ []

abbrev small_sheet : Bytes
small_sheet =
    codes "TITLE \"Disc\""
    ++ (newline
        ++ (codes "FILE \"c.wav\" WAVE"
            ++ (newline
                ++ (codes " TRACK 1"
                    ++ (newline
                        ++ (codes "  TITLE \"One\""
                            ++ (newline
                                ++ (codes " TRACK 22"
                                    ++ (newline ++ (codes "  INDEX 01 02:30:00" ++ newline))))))))))

abbrev small_env : Env ℕ (List (Track ℕ))
small_env = record env {
  content = λ path. some small_sheet;
  stat = λ path. if equal path (codes "/m/c.wav") then some (pos 7) else none;
}

small_sheet_read :
    cue_read small_env (pos 1) 1 (codes "/m/d.cue") []
    ≡ done (
      true,
      record (track_at (pos 2) 150) {
        cuefile = codes "/m/d.cue";
        file = codes "/m/c.wav";
        album = codes "Disc";
        duration = 50;
      }
          ∷ record (track_at (pos 1) 0) {
            cuefile = codes "/m/d.cue";
            file = codes "/m/c.wav";
            album = codes "Disc";
            title = some (codes "One");
            duration = 150;
          }
          ∷ [],
    )
unfolding cue_read cue_loop cue_line cue_performer cue_title cue_file cue_open cue_track cue_index
    cue_text cue_other cue_end begin_track read_string read_from read_line scan_word word_of
    upto_last find_last skip_bom equal
small_sheet_read = refl
