-- ===== src/Library/Directories.antt =====
-- src/library.c: the directories, from library_directory to library_iterate_directories.
use musicd.Base.{
  ℕ, zero, suc, Bool, true, false, not, ◌||◌, List, [], ◌∷◌, ◌++◌, map, Option, none, some,
  if◌then◌else◌, Bytes, ℤ, pos, negsuc, is_zero, is_negative,
}
use musicd.Memory.{Run, done, fault, endless}
use musicd.Library.Rows.{Tables, DirectoryRow, FileRow, TrackRow, at, same, keep, count, new_rowid}
use musicd.Library.Statements.{
  Db, Query, pure, ◌>>=◌, ◌>>◌, succeeds, last_insert, prepare_query, scalar_insert,
  directories_path, is_taken, field_rowid,
}
use musicd.Library.Files.{library_file_delete, library_iterate_files_by_directory}
use musicd.Library.Selects.{select_path, select_int, update, iterate_opaque}

-- `INSERT INTO directories (path, parentid) VALUES(?, ?)`
abbrev pub add_directory : Bytes → ℤ → ℕ → Tables → Tables
add_directory path parent rowid t = record t {
  directories =
      t.directories
      ++ (record { rowid = rowid; path = path; mtime = none; parentid = parent } ∷ []);
}

abbrev pub fresh_directory : Tables → ℕ
fresh_directory t = new_rowid DirectoryRow.rowid t.directories

unfoldable pub library_directory : Bytes → ℤ → Query ℤ
unfolding prepare_query field_rowid scalar_insert is_taken
library_directory path parent = do
  result ← field_rowid directories_path path
  elim (not (is_zero result) || is_negative parent) [
    | true ↦ pure result
    | false ↦ do
      prepared ← prepare_query
      elim prepared [
        | false ↦ pure (negsuc 0)
        | true ↦ do
          inserted ←
              scalar_insert (is_taken directories_path path) fresh_directory
                (add_directory path parent)
          added ← last_insert
          pure (if is_zero inserted then added else inserted)
      ]
  ]

unfoldable pub library_directory_path : ℤ → Query (Option Bytes)
unfolding select_path
library_directory_path directory =
    select_path λ t. map DirectoryRow.path (keep (λ r. at r.rowid directory) t.directories)

unfoldable pub library_directory_mtime : ℤ → Query ℤ
unfolding select_int
library_directory_mtime directory =
    select_int (negsuc 0)
      λ t. map DirectoryRow.mtime (keep (λ r. at r.rowid directory) t.directories)

abbrev pub set_directory_mtime : ℤ → ℤ → DirectoryRow → DirectoryRow
set_directory_mtime directory mtime row =
    if at row.rowid directory then record row { mtime = some mtime } else row

unfoldable pub library_directory_mtime_set : ℤ → ℤ → Query Unit
unfolding update
library_directory_mtime_set directory mtime =
    update λ t. record t { directories = map (set_directory_mtime directory mtime) t.directories }

-- The joined rows of a directory: its tracks by way of its files.
unfoldable pub tracks_in : ℤ → Tables → List FileRow → List TrackRow
tracks_in directory t [] = []
tracks_in directory t (file ∷ files) =
    if same file.directoryid directory
    then keep (λ r. same r.track.fileid (pos file.rowid)) t.tracks ++ tracks_in directory t files
    else tracks_in directory t files

-- For each row of the directory, which is one at most.
unfoldable pub directory_tracks : ℤ → Tables → List DirectoryRow → List TrackRow
unfolding tracks_in
directory_tracks directory t [] = []
directory_tracks directory t (row ∷ rows) =
    if at row.rowid directory
    then tracks_in directory t t.files ++ directory_tracks directory t rows
    else directory_tracks directory t rows

-- What is counted does not reach 2^31, the end of an `int`.
unfoldable pub library_directory_tracks_count : ℤ → Query ℤ
unfolding select_int directory_tracks
library_directory_tracks_count directory =
    select_int (negsuc 0)
      λ t. some (pos (count (λ r. true) (directory_tracks directory t t.directories))) ∷ []

-- The callback can delete what is below, and need not return.
unfoldable pub each_directory :
    (DirectoryRow → Db → Run (Bool × Db)) → List DirectoryRow → Db → Run Db
unfolding succeeds
each_directory callback [] db = done (succeeds db).1
each_directory callback (row ∷ rows) db =
    let (good, db₁) = succeeds db in
    elim good [
      | false ↦ done db₁
      | true ↦ elim (callback row db₁) [
        | done (go_on, db₂) ↦ elim go_on [
          | false ↦ done db₂
          | true ↦ each_directory callback rows db₂
        ]
        | fault e ↦ fault e
      ]
    ]

-- `parentid = ?`
abbrev pub is_child : ℤ → DirectoryRow → Bool
is_child parent row = same row.parentid parent

unfoldable pub library_iterate_directories : ℤ → (DirectoryRow → Db → Run (Bool × Db)) → Db → Run Db
unfolding prepare_query each_directory
library_iterate_directories parent callback db =
    let (prepared, db₁) = prepare_query db in
    elim prepared [
      | false ↦ done db₁
      | true ↦ each_directory callback (keep (is_child parent) db₁.tables.directories) db₁
    ]

-- The same with a callback that changes what `opaque` points at, and not the database.
unfoldable pub iterate_directories_opaque :
    {Opaque : Type 0} → ℤ → (DirectoryRow → Opaque → Bool × Opaque) → Opaque → Query Opaque
unfolding iterate_opaque
iterate_directories_opaque parent callback opaque =
    iterate_opaque (λ t. keep (is_child parent) t.directories) callback opaque

unfoldable pub delete_files_cb : FileRow → Query Bool
unfolding library_file_delete
delete_files_cb file = do library_file_delete (pos file.rowid); pure true

abbrev pub remove_directory : ℤ → Tables → Tables
remove_directory directory t = record t {
  directories = keep (λ r. not (at r.rowid directory)) t.directories;
}

-- `delete` is `library_directory_delete`.
unfoldable pub delete_directories_cb : (ℤ → Db → Run Db) → DirectoryRow → Db → Run (Bool × Db)
delete_directories_cb delete row db = elim (delete (pos row.rowid) db) [
  | done db' ↦ done (true, db')
  | fault e ↦ fault e
]

-- With the depth as fuel.
unfoldable pub library_directory_delete : ℕ → ℤ → Db → Run Db
unfolding update library_iterate_files_by_directory delete_files_cb library_iterate_directories
    delete_directories_cb
library_directory_delete zero directory db = fault endless
library_directory_delete (suc depth) directory db =
    let (_, db₁) = library_iterate_files_by_directory directory delete_files_cb db in
    elim (library_iterate_directories directory
      (delete_directories_cb (library_directory_delete depth)) db₁) [
        | done db₂ ↦ done (update (remove_directory directory) db₂).1
        | fault e ↦ fault e
      ]
