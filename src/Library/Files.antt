-- ===== src/Library/Files.antt =====
-- src/library.c: the files and their tracks, from library_root_path to library_file_delete.
use musicd.Base.{
  ℕ, suc, Bool, true, false, not, ◌&&◌, ◌||◌, List, [], ◌∷◌, ◌++◌, map, Option, none, some,
  if◌then◌else◌, Bytes, ℤ, pos, negsuc, is_zero, is_positive,
}
use musicd.Library.Rows.{
  Track, DirectoryRow, FileRow, ArtistRow, AlbumRow, TrackRow, Tables, at, same, keep, count,
  new_rowid,
}
use musicd.Library.Statements.{
  Query, pure, ◌>>=◌, ◌>>◌, last_insert, prepare_query, execute, execute_insert, scalar_insert,
  files_path, albums_name, artists_name, is_taken, field_rowid, field_rowid_create,
}
use musicd.Library.Selects.{select_path, select_int, update, iterate}

-- `INSERT INTO artists (name) VALUES (?)`
abbrev pub add_artist : Bytes → ℕ → Tables → Tables
add_artist name rowid t = record t {
  artists = t.artists ++ (record { rowid = rowid; name = name } ∷ []);
}

-- `INSERT INTO albums (name) VALUES (?)`; the column `tracks` is 0 by default.
abbrev pub add_album : Bytes → ℕ → Tables → Tables
add_album name rowid t = record t {
  albums = t.albums ++ (record { rowid = rowid; name = name; imageid = none; tracks = 0 } ∷ []);
}

-- `INSERT INTO files (path, directoryid) VALUES(?, ?)`
abbrev pub add_file : Bytes → ℤ → ℕ → Tables → Tables
add_file path directory rowid t = record t {
  files =
      t.files
      ++ (record { rowid = rowid; path = path; mtime = none; directoryid = directory } ∷ []);
}

abbrev pub add_track : Track → ℕ → Tables → Tables
add_track track rowid t = record t {
  tracks = t.tracks ++ (record { rowid = rowid; track = track } ∷ []);
}

abbrev pub fresh_artist : Tables → ℕ
fresh_artist t = new_rowid ArtistRow.rowid t.artists

abbrev pub fresh_album : Tables → ℕ
fresh_album t = new_rowid AlbumRow.rowid t.albums

abbrev pub fresh_file : Tables → ℕ
fresh_file t = new_rowid FileRow.rowid t.files

abbrev pub fresh_track : Tables → ℕ
fresh_track t = new_rowid TrackRow.rowid t.tracks

-- `UPDATE albums SET tracks = tracks + 1 WHERE rowid = ?`
abbrev pub count_up : ℤ → AlbumRow → AlbumRow
count_up album row = if at row.rowid album then record row { tracks = suc row.tracks } else row

unfoldable pub increment_album_tracks : ℤ → Query Unit
unfolding prepare_query execute
increment_album_tracks album = do
  prepared ← prepare_query
  elim prepared [
    | false ↦ pure tt
    | true ↦ do
      executed ← execute (λ t. record t { albums = map (count_up album) t.albums })
      pure tt
  ]

-- `SELECT path FROM directories WHERE parentid = 0`
unfoldable pub library_root_path : Query (Option Bytes)
unfolding select_path
library_root_path =
    select_path λ t. map DirectoryRow.path (keep (λ r. same r.parentid (pos 0)) t.directories)

unfoldable pub library_file : Bytes → ℤ → Query ℤ
unfolding prepare_query field_rowid scalar_insert is_taken
library_file path directory = do
  result ← field_rowid files_path path
  elim (not (is_zero result) || not (is_positive directory)) [
    | true ↦ pure result
    | false ↦ do
      prepared ← prepare_query
      elim prepared [
        | false ↦ pure (negsuc 0)
        | true ↦ do
          inserted ← scalar_insert (is_taken files_path path) fresh_file (add_file path directory)
          added ← last_insert
          pure (if is_zero inserted then added else inserted)
      ]
  ]

-- A field of `track` that is filled in where the text that names it is there.
unfoldable pub optional : Option Bytes → ℤ → (Bytes → Query ℤ) → Query ℤ
optional none id create = pure id
optional (some text) id create = create text

unfoldable pub artist_id : Track → Query ℤ
unfolding optional field_rowid_create
artist_id track =
    optional track.artist track.artistid
      (λ name. field_rowid_create artists_name fresh_artist (add_artist name) name)

unfoldable pub album_id : Track → Query ℤ
unfolding optional field_rowid_create
album_id track =
    optional track.album track.albumid
      (λ name. field_rowid_create albums_name fresh_album (add_album name) name)

-- From the INSERT on; the ids stand in `track`.
unfoldable pub insert_track : Track → Query ℤ
unfolding execute_insert increment_album_tracks
insert_track track = do
  executed ← execute_insert (λ t. false) fresh_track (add_track track)
  elim executed [
    | false ↦ pure (negsuc 0)
    | true ↦ do
      elim track.album as (λ _. Query Unit) [
        | none ↦ pure tt
        | some name ↦ increment_album_tracks track.albumid
      ]
      last_insert
  ]

unfoldable pub library_track_add : Track → ℤ → Query ℤ
unfolding prepare_query library_file optional artist_id album_id insert_track
library_track_add track directory = do
  prepared ← prepare_query
  elim prepared [
    | false ↦ pure (negsuc 0)
    | true ↦ do
      fileid ← library_file track.file directory
      cuefileid ← optional track.cuefile track.cuefileid (λ path. library_file path directory)
      artistid ← artist_id track
      albumid ← album_id track
      insert_track record track {
        fileid = fileid;
        cuefileid = cuefileid;
        artistid = artistid;
        albumid = albumid;
      }
  ]

unfoldable pub library_file_mtime : ℤ → Query ℤ
unfolding select_int
library_file_mtime file =
    select_int (negsuc 0) λ t. map FileRow.mtime (keep (λ r. at r.rowid file) t.files)

abbrev pub set_file_mtime : ℤ → ℤ → FileRow → FileRow
set_file_mtime file mtime row = if at row.rowid file then record row { mtime = some mtime } else row

unfoldable pub library_file_mtime_set : ℤ → ℤ → Query Unit
unfolding update
library_file_mtime_set file mtime =
    update λ t. record t { files = map (set_file_mtime file mtime) t.files }

unfoldable pub library_iterate_files_by_directory : ℤ → (FileRow → Query Bool) → Query Unit
unfolding iterate
library_iterate_files_by_directory directory callback =
    iterate (λ t. keep (λ r. same r.directoryid directory) t.files) callback

-- The tracks of a file, and those of an album that are of other files.
abbrev pub of_file : ℤ → TrackRow → Bool
of_file file row = same row.track.fileid file

abbrev pub of_album : ℕ → TrackRow → Bool
of_album album row = at album row.track.albumid

abbrev pub remains : ℕ → ℤ → TrackRow → Bool
remains album file row = of_album album row && not (of_file file row)

-- `albums.rowid IN (SELECT albumid FROM tracks WHERE fileid = ?1)`
abbrev pub has_album : ℕ → ℤ → TrackRow → Bool
has_album album file row = of_file file row && of_album album row

abbrev pub recount : List TrackRow → ℤ → AlbumRow → AlbumRow
recount tracks file row =
    if is_zero (pos (count (has_album row.rowid file) tracks))
    then row
    else record row { tracks = count (remains row.rowid file) tracks }

unfoldable pub library_file_clear : ℤ → Query Unit
unfolding prepare_query execute update
library_file_clear file = do
  prepared ← prepare_query
  elim prepared [
    | false ↦ pure tt
    | true ↦ do
      counted ← execute (λ t. record t { albums = map (recount t.tracks file) t.albums })
      prepared_tracks ← prepare_query
      elim prepared_tracks [
        | false ↦ pure tt
        | true ↦ do
          deleted ← execute (λ t. record t { tracks = keep (λ r. not (of_file file r)) t.tracks })
          update λ t. record t { images = keep (λ r. not (same r.fileid file)) t.images }
      ]
  ]

unfoldable pub library_file_delete : ℤ → Query Unit
unfolding library_file_clear update
library_file_delete file = do
  library_file_clear file
  update λ t. record t { files = keep (λ r. not (at r.rowid file)) t.files }
