-- ===== src/Library/Again.antt =====
-- src/library.c: library_file finds what it added, and what it does where SQLite fails.
use musicd.Base.{
  ℕ, zero, suc, none, ◌≤◌, ◌<◌, ◌^◌, ◌≡◌, refl, ◌⊎◌, inl, inr, true, false, List, [], ◌∷◌, ◌++◌,
  map, Option, some, arith, Bytes, equal, equal_self, ℤ, pos, is_positive, Bool-cases, List-cases,
}
use musicd.Library.Rows.{Tables, FileRow, largest, wrap_int, column_int}
use musicd.Library.Statements.{
  Db, prepare_query, succeeds, execute_scalar, execute_insert, scalar_insert, files_path, is_taken,
  fields, rowids_of, field_rowid,
}
use musicd.Library.Files.{library_file, add_file, fresh_file}
use musicd.Library.Lookup.{working, scalar_insert_new, wrap_int_small}

-- A row that is added behind the others is the one found, where none was.
rowids_of_added :
    (path : Bytes) (rows : List FileRow) (row : FileRow)
    → rowids_of path (map (λ (r : FileRow). (r.rowid, r.path)) rows) ≡ []
    → row.path ≡ path
    → rowids_of path (map (λ (r : FileRow). (r.rowid, r.path)) (rows ++ (row ∷ [])))
      ≡ some (pos row.rowid) ∷ []
unfolding rowids_of
rowids_of_added path [] row none_there e = rw e (ground (arith, equal_self path))
rowids_of_added path (r ∷ rows) row none_there e = elim (Bool-cases (equal r.path path)) [
  | inl o ↦ absurd (ground (arith, o, none_there))
  | inr o ↦ rw o (rowids_of_added path rows row (rw o at none_there) e)
]

-- What a lookup finds is the number of a row.
file_cases :
    (path : Bytes) (rows : List FileRow)
    → (rowids_of path (map (λ (r : FileRow). (r.rowid, r.path)) rows) ≡ [])
      ⊎ ((k : ℕ) × (rest : List (Option ℤ)) × (rowids_of path
              (map (λ (r : FileRow). (r.rowid, r.path)) rows)
            ≡ some (pos k) ∷ rest)
          × (k ≤ largest FileRow.rowid rows))
unfolding rowids_of
file_cases path [] = inl refl
file_cases path (r ∷ rows) = elim (Bool-cases (equal r.path path)) [
  | inl e ↦ inr (
    r.rowid,
    rowids_of path (map (λ (r : FileRow). (r.rowid, r.path)) rows),
    rw e refl,
    ground arith,
  )
  | inr e ↦ elim (file_cases path rows) [
    | inl none_there ↦ inl (rw e none_there)
    | inr (k, rest, found, le) ↦ inr (k, rest, rw e found, ground arith)
  ]
]

module _ (path : Bytes) (t : Tables) (last : ℤ) where
  file_found :
      (directory : ℤ) (k : ℕ) (rest : List (Option ℤ))
      → rowids_of path (fields files_path t) ≡ some (pos k) ∷ rest
      → k < 2 ^ 31
      → 1 ≤ k
      → library_file path directory (working t last) ≡ (pos k, working t last)
  unfolding library_file field_rowid prepare_query succeeds execute_scalar column_int
  file_found directory k rest e small from = ground (arith, e, wrap_int_small k)

  file_new :
      (directory : ℤ)
      → rowids_of path (fields files_path t) ≡ []
      → is_positive directory ≡ true
      → library_file path directory (working t last) ≡ (
        pos (fresh_file t),
        working (add_file path directory (fresh_file t) t) (pos (fresh_file t)),
      )
  unfolding library_file field_rowid prepare_query succeeds execute_scalar
  file_new directory e positive =
      ground
        (arith, e, scalar_insert_new files_path path t last e fresh_file (add_file path directory))

  file_absent :
      (directory : ℤ)
      → rowids_of path (fields files_path t) ≡ []
      → is_positive directory ≡ false
      → (library_file path directory (working t last)).0 ≡ pos 0
  unfolding library_file field_rowid prepare_query succeeds execute_scalar
  file_absent directory e o = ground (arith, e, o)

  -- No row has the number 0.
  file_zero :
      (directory : ℤ) (rest : List (Option ℤ))
      → rowids_of path (fields files_path t) ≡ some (pos 0) ∷ rest
      → is_positive (library_file path directory (working t last)).0 ≡ false
  unfolding library_file field_rowid prepare_query succeeds execute_scalar column_int wrap_int
      scalar_insert execute_insert is_taken
  file_zero directory rest e = ground (arith, e)

-- While SQLite does not fail and the numbers of files stay below 2^31: a call that gave a number, of a
-- file found or added, gives the same number again and changes nothing more, whatever directory the
-- second call names.
pub library_file-again :
    (path : Bytes) (directory other : ℤ) (t : Tables) (last : ℤ)
    → suc (largest FileRow.rowid t.files) < 2 ^ 31
    → is_positive (library_file path directory (working t last)).0 ≡ true
    → library_file path other (library_file path directory (working t last)).1
      ≡ library_file path directory (working t last)
unfolding fields
library_file-again path directory other t last small positive = elim (file_cases path t.files) [
  | inl none_there ↦ elim (Bool-cases (is_positive directory)) [
    | inl from ↦
        let row : FileRow = record {
          rowid = fresh_file t;
          path = path;
          mtime = none;
          directoryid = directory;
        } in
        rw (file_new path t last directory none_there from) (
          file_found path (add_file path directory (fresh_file t) t) (pos (fresh_file t)) other
            (fresh_file t) [] (rowids_of_added path t.files row none_there refl) small
            (omega arith))
    | inr not_from ↦
        absurd (ground (arith, file_absent path t last directory none_there not_from, positive))
  ]
  | inr (zero, rest, e, le) ↦
      absurd (ground (arith, file_zero path t last directory rest e, positive))
  | inr (suc k, rest, e, le) ↦
      let found : library_file path directory (working t last) ≡ (pos (suc k), working t last) =
        file_found path t last directory (suc k) rest e (omega arith) (omega arith) in
      rw found (file_found path t last other (suc k) rest e (omega arith) (omega arith))
]

-- However SQLite fails: the tables stay as they were, or a file that was not there has been added with
-- a new number, and this number is given.
pub library_file-ends :
    (path : Bytes) (directory : ℤ) (db : Db)
    → ((library_file path directory db).1.tables ≡ db.tables)
      ⊎ ((rowids_of path (fields files_path db.tables) ≡ [])
          × ((library_file path directory db).0 ≡ pos (fresh_file db.tables))
          × ((library_file path directory db).1.tables
              ≡ add_file path directory (fresh_file db.tables) db.tables))
unfolding library_file field_rowid prepare_query succeeds execute_scalar scalar_insert
    execute_insert is_taken
library_file-ends path directory db =
    elim (List-cases (rowids_of path (fields files_path db.tables))) [
      | inl e ↦ elim (Bool-cases (is_positive directory)) [
        | inl from ↦ ground (arith, e, from)
        | inr o ↦ inl (ground (arith, e, o))
      ]
      | inr (x, rest, e) ↦ inl (ground (arith, e))
    ]
