-- ===== src/Library/Tests.antt =====
-- Tests of the library's operations, and the properties at concrete inputs.
use musicd.Base.{
  ◌⊎◌, ◌≡◌, refl, ◌↔◌, ◌⊎◌, true, false, [], ◌∷◌, none, some, arith, codes, pos, negsuc, ◌<◌, ◌^◌,
}
use musicd.Memory.{Ensures}
use musicd.Library.Rows.{Track, Tables}
use musicd.Library.Statements.{
  Db, files_path, fields, rowids_of, succeeds, prepare_query, field_rowid, execute_scalar,
  scalar_insert, execute_insert, is_taken,
}
use musicd.Library.Files.{
  library_file, library_file_mtime, library_file_mtime_set, library_track_add, add_file, fresh_file,
}
use musicd.Library.Directories.{library_directory, library_directory_delete}
use musicd.Library.Words.{Lyrics, library_lyrics, library_lyrics_set}
use musicd.Library.Lookup.{working}
use musicd.Library.Added.{IsGood}
use musicd.Library.Times.{library_file_mtime-exact}
use musicd.Library.Again.{library_file-again, library_file-ends}
use musicd.Library.Gone.{IsGone, library_directory_delete-IsGone}
use musicd.Library.Kept.{library_lyrics-set}
use musicd.Library.Calls.{no_tables, Reach, start, track_add, directory, Reach-IsGood}

abbrev song : Track
song = record {
  fileid = pos 0;
  file = codes "/m/a.ogg";
  cuefileid = pos 0;
  cuefile = none;
  track = pos 1;
  title = some (codes "Song");
  artistid = pos 0;
  artist = some (codes "Band");
  albumid = pos 0;
  album = some (codes "Album");
  start = 0;
  duration = 0;
  trackindex = pos 0;
}

abbrev music : Db
music = (library_directory (codes "/m") (pos 0) (working no_tables (pos 0))).1

abbrev one_song : Db
one_song = (library_track_add song (pos 1) music).1

music-Reach : Reach 1 music
music-Reach = directory (codes "/m") (pos 0) (omega arith) (start (pos 0))

one_song-Reach : Reach 2 one_song
one_song-Reach = track_add song (pos 1) (λ absent. absurd (ground (arith, absent))) music-Reach

Reach-IsGood_example : IsGood 2 one_song
Reach-IsGood_example = Reach-IsGood one_song-Reach (omega arith)

library_file-again_example :
    library_file
      (codes "/m/b.ogg")
      (negsuc 0)
      (library_file (codes "/m/b.ogg") (pos 1) (working no_tables (pos 0))).1
    ≡ library_file (codes "/m/b.ogg") (pos 1) (working no_tables (pos 0))
unfolding library_file field_rowid prepare_query succeeds execute_scalar scalar_insert
    execute_insert is_taken fields rowids_of
library_file-again_example =
    library_file-again (codes "/m/b.ogg") (pos 1) (negsuc 0) no_tables (pos 0) (omega arith) refl

-- SQLite prepares the lookup and fails in its step.
abbrev failing : Db
failing = record { tables = no_tables; last_insert_rowid = pos 0; answers = true ∷ false ∷ [] }

library_file-ends_example :
    ((library_file (codes "/m/b.ogg") (pos 1) failing).1.tables ≡ no_tables)
    ⊎ ((rowids_of (codes "/m/b.ogg") (fields files_path no_tables) ≡ [])
        × ((library_file (codes "/m/b.ogg") (pos 1) failing).0 ≡ pos (fresh_file no_tables))
        × ((library_file (codes "/m/b.ogg") (pos 1) failing).1.tables
            ≡ add_file (codes "/m/b.ogg") (pos 1) (fresh_file no_tables) no_tables))
library_file-ends_example = library_file-ends (codes "/m/b.ogg") (pos 1) failing

abbrev one_file : Tables
one_file = add_file (codes "/m/b.ogg") (pos 1) 1 no_tables

-- The last second that fits is read back.
library_file_mtime-exact_example :
    ((library_file_mtime
        (pos 1)
        (library_file_mtime_set (pos 1) (pos 2147483647) (working one_file (pos 1))).1).0
      ≡ pos 2147483647)
    ↔ (2147483647 < 2 ^ 31)
library_file_mtime-exact_example =
    library_file_mtime-exact (pos 1) 2147483647 one_file (pos 1) (_, [], refl) (omega arith)

library_directory_delete-IsGone_example :
    Ensures (library_directory_delete 3 (pos 1) one_song) (IsGone 2 (pos 1) one_song)
library_directory_delete-IsGone_example =
    library_directory_delete-IsGone 2 3 (pos 1) one_song (Reach-IsGood one_song-Reach (omega arith))
      (omega arith, omega arith)

abbrev words : Lyrics
words = record { lyrics = some (codes "la la"); provider = none; source = none }

library_lyrics-set_example :
    (library_lyrics
      (pos 4)
      (library_lyrics_set (pos 4) (some words) (pos 9) (working no_tables (pos 0))).1).0
    ≡ (some words, pos 9)
library_lyrics-set_example =
    library_lyrics-set (pos 4) (pos 4) words (codes "la la") (pos 9) no_tables (pos 0) refl
