-- ===== src/Library/Times.antt =====
-- src/library.c: modification times through library_file_mtime_set and library_file_mtime.
use musicd.Base.{
  ℕ, ◌<◌, ◌^◌, ◌≡◌, refl, ◌↔◌, List, [], ◌∷◌, map, Option, some, arith, Bool-cases, inl, inr, ℤ,
  pos,
}
use musicd.Library.Rows.{Tables, FileRow, at, keep, wrap_int, column_int}
use musicd.Library.Statements.{prepare_query, succeeds, execute, execute_scalar}
use musicd.Library.Files.{library_file_mtime, library_file_mtime_set, set_file_mtime}
use musicd.Library.Selects.{select_int, update}
use musicd.Library.Lookup.{working}

-- A row of the table has this number.
abbrev pub HasFile : ℤ → Tables → Type 0
HasFile file t =
    (row : FileRow) × (rest : List FileRow) × (keep (λ r. at r.rowid file) t.files ≡ row ∷ rest)

set_first :
    (file mtime : ℤ) (rows : List FileRow) {row : FileRow} {rest : List FileRow}
    → keep (λ r. at r.rowid file) rows ≡ row ∷ rest
    → (more : List (Option ℤ)) × (map FileRow.mtime
          (keep (λ r. at r.rowid file) (map (set_file_mtime file mtime) rows))
        ≡ some mtime ∷ more)
set_first file mtime [] h = absurd (ground arith)
set_first file mtime (r ∷ rows) h = elim (Bool-cases (at r.rowid file)) [
  | inl e ↦ (
    map FileRow.mtime (keep (λ r. at r.rowid file) (map (set_file_mtime file mtime) rows)),
    ground (arith, e),
  )
  | inr e ↦
      let (more, found) = set_first file mtime rows (rw e at h) in (more, ground (arith, e, found))
]

pub library_file_mtime-set :
    (file mtime : ℤ) (t : Tables) (last : ℤ)
    → HasFile file t
    → (library_file_mtime file (library_file_mtime_set file mtime (working t last)).1).0
      ≡ wrap_int mtime
unfolding library_file_mtime library_file_mtime_set update select_int prepare_query succeeds execute
    execute_scalar column_int
library_file_mtime-set file mtime t last (row, rest, e) =
    let (more, found) = set_first file mtime t.files e in rw found refl

wrap_int_iff : (n : ℕ) → n < 2 ^ 63 → (wrap_int (pos n) ≡ pos n) ↔ (n < 2 ^ 31)
unfolding wrap_int
wrap_int_iff n h = ground arith

-- While SQLite does not fail, the modification time set for a file that is there is read back exactly
-- if it is below 2^31.
pub library_file_mtime-exact :
    (file : ℤ) (n : ℕ) (t : Tables) (last : ℤ)
    → HasFile file t
    → n < 2 ^ 63
    → ((library_file_mtime file (library_file_mtime_set file (pos n) (working t last)).1).0 ≡ pos n)
      ↔ (n < 2 ^ 31)
library_file_mtime-exact file n t last has small =
    rw (library_file_mtime-set file (pos n) t last has) (wrap_int_iff n small)
