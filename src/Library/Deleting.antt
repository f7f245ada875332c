-- ===== src/Library/Deleting.antt =====
-- src/library.c: library_file_clear, library_file_delete and library_directory_delete while SQLite
-- does not fail.
use musicd.Base.{
  ℕ, zero, suc, ◌+◌, ◌<◌, ◌≡◌, refl, not, List, [], ◌∷◌, inl, inr, arith, All, Bool-cases, ℤ, pos,
  ap,
}
use musicd.Memory.{Run, Ensures, Ensures-done}
use musicd.Library.Rows.{Tables, DirectoryRow, FileRow, same, at, keep}
use musicd.Library.Statements.{Db, prepare_query, succeeds, execute}
use musicd.Library.Files.{
  library_file_clear, library_file_delete, library_iterate_files_by_directory,
}
use musicd.Library.Selects.{each, iterate, update}
use musicd.Library.Directories.{
  is_child, each_directory, library_iterate_directories, delete_files_cb, delete_directories_cb,
  library_directory_delete, remove_directory,
}
use musicd.Library.Counts.{IsCounted, IsRooted, Below, low, All-keep, cleared-IsCounted}
use musicd.Library.Lookup.{at_working, working, same→eq}
use musicd.Library.Added.{IsGood}

pub IsGood-working :
    (n : ℕ) (f : Db → Db) (db : Db)
    → IsGood n db
    → ((t : Tables) (last : ℤ) → IsCounted n t → IsRooted n t → IsGood n (f (working t last)))
    → IsGood n (f db)
IsGood-working n f db (quiet, h, rooted) k =
    at_working (λ d. IsCounted n d.tables → IsRooted n d.tables → IsGood n (f d)) db quiet k h
      rooted

pub IsCounted-alike :
    {n : ℕ} {t u : Tables}
    → IsCounted n t
    → u.albums ≡ t.albums
    → u.tracks ≡ t.tracks
    → IsCounted n u
IsCounted-alike h e e' = record {
  counted = rw (e, e') h.counted;
  known = rw (e, e') h.known;
  positive = rw e h.positive;
  bounded = rw e h.bounded;
}

-- A file that is cleared leaves the counts as they should be.
pub library_file_clear-IsGood :
    (n : ℕ) (file : ℤ) (db : Db) → IsGood n db → IsGood n (library_file_clear file db).1
unfolding library_file_clear prepare_query succeeds execute update
library_file_clear-IsGood n file db good =
    IsGood-working n (λ d. (library_file_clear file d).1) db good
      (λ t last h rooted. (refl, IsCounted-alike (cleared-IsCounted n file t h) refl refl, rooted))

pub library_file_delete-IsGood :
    (n : ℕ) (file : ℤ) (db : Db) → IsGood n db → IsGood n (library_file_delete file db).1
unfolding library_file_delete update prepare_query succeeds execute
library_file_delete-IsGood n file db good =
    IsGood-working n
      (λ d. (update (λ t. record t { files = keep (λ r. not (at r.rowid file)) t.files }) d).1)
      (library_file_clear file db).1 (library_file_clear-IsGood n file db good)
      (λ t last h rooted. (refl, IsCounted-alike h refl refl, rooted))

pub succeeds-IsGood : (n : ℕ) (db : Db) → IsGood n db → IsGood n (succeeds db).1
unfolding succeeds
succeeds-IsGood n db good =
    IsGood-working n (λ d. (succeeds d).1) db good (λ t last h r. (refl, h, r))

each_file-IsGood :
    (n : ℕ) (files : List FileRow) (db : Db)
    → IsGood n db
    → IsGood n (each delete_files_cb files db).1
unfolding each delete_files_cb
each_file-IsGood n [] db good = succeeds-IsGood n db good
each_file-IsGood n (file ∷ files) db good =
    IsGood-working n (λ d. (each delete_files_cb (file ∷ files) d).1) db good
      (λ t last h rooted.
        each_file-IsGood n files (library_file_delete (pos file.rowid) (working t last)).1
          (library_file_delete-IsGood n (pos file.rowid) (working t last) (refl, h, rooted)))

pub files-IsGood :
    (n : ℕ) (directory : ℤ) (db : Db)
    → IsGood n db
    → IsGood n (library_iterate_files_by_directory directory delete_files_cb db).1
unfolding library_iterate_files_by_directory iterate prepare_query succeeds
files-IsGood n directory db good =
    IsGood-working n (λ d. (library_iterate_files_by_directory directory delete_files_cb d).1) db
      good
      (λ t last h rooted.
        each_file-IsGood n (keep (λ r. same r.directoryid directory) t.files) (working t last)
          (refl, h, rooted))

-- There is fuel for what is below a directory, which has larger numbers.
abbrev pub HasFuel : ℕ → ℕ → ℕ → Type 0
HasFuel n depth k = (n < depth + k) × (0 < depth)

pub children-HasFuel :
    (n depth : ℕ) (z : ℤ) (rows : List DirectoryRow)
    → n < suc depth + low z
    → All (Below n) rows
    → All (λ (r : DirectoryRow). HasFuel n depth r.rowid) (keep (is_child z) rows)
children-HasFuel n depth z [] h below = tt
children-HasFuel n depth z (r ∷ rows) h below = elim (Bool-cases (is_child z r)) [
  | inr e ↦ rw e (children-HasFuel n depth z rows h below.1)
  | inl e ↦
      let parent : low r.parentid ≡ low z = ap low (same→eq r.parentid z e) in
      rw e (
        (omega (arith, parent, below.0.0), omega (arith, parent, below.0.0, below.0.1)),
        children-HasFuel n depth z rows h below.1,
      )
]

each_directory-IsGood :
    (n depth : ℕ) (delete : ℤ → Db → Run Db) (rows : List DirectoryRow) (db : Db)
    → ((k : ℕ) (d : Db) → IsGood n d → HasFuel n depth k → Ensures (delete (pos k) d) (IsGood n))
    → All (λ (r : DirectoryRow). HasFuel n depth r.rowid) rows
    → IsGood n db
    → Ensures (each_directory (delete_directories_cb delete) rows db) (IsGood n)
unfolding each_directory delete_directories_cb succeeds
each_directory-IsGood n depth delete [] db one fuels good = succeeds-IsGood n db good
each_directory-IsGood n depth delete (row ∷ rows) db one fuels (quiet, h, rooted) =
    at_working
      (λ d.
        IsGood n d
        → Ensures (each_directory (delete_directories_cb delete) (row ∷ rows) d) (IsGood n))
      db quiet
      (λ t last good.
        let (db', e, good') =
          Ensures-done (delete (pos row.rowid) (working t last)) (IsGood n)
            (one row.rowid (working t last) good fuels.0) in
        rw (e, Ensures, each_directory, delete_directories_cb)
          (each_directory-IsGood n depth delete rows db' one fuels.1 good'))
      (quiet, h, rooted)

iterate-IsGood :
    (n depth : ℕ) (z : ℤ) (delete : ℤ → Db → Run Db) (db : Db)
    → ((k : ℕ) (d : Db) → IsGood n d → HasFuel n depth k → Ensures (delete (pos k) d) (IsGood n))
    → n < suc depth + low z
    → IsGood n db
    → Ensures (library_iterate_directories z (delete_directories_cb delete) db) (IsGood n)
unfolding library_iterate_directories prepare_query succeeds
iterate-IsGood n depth z delete db one fuel good =
    at_working
      (λ d.
        IsGood n d
        → Ensures (library_iterate_directories z (delete_directories_cb delete) d) (IsGood n))
      db good.0
      (λ t last good'.
        each_directory-IsGood n depth delete (keep (is_child z) t.directories) (working t last) one
          (children-HasFuel n depth z t.directories fuel good'.2) good')
      good

-- A directory is deleted with all below it, and the counts are kept.
pub library_directory_delete-IsGood :
    (n depth : ℕ) (z : ℤ) (db : Db)
    → IsGood n db
    → HasFuel n depth (low z)
    → Ensures (library_directory_delete depth z db) (IsGood n)
unfolding library_directory_delete update prepare_query succeeds execute
library_directory_delete-IsGood n zero z db good fuel = absurd (omega (arith, fuel.1))
library_directory_delete-IsGood n (suc depth) z db good fuel =
    let db₁ : Db = (library_iterate_files_by_directory z delete_files_cb db).1 in
    let (db₂, e, good₂) =
      Ensures-done
        (library_iterate_directories z (delete_directories_cb (library_directory_delete depth)) db₁)
        (IsGood n)
        (iterate-IsGood n depth z (library_directory_delete depth) db₁
          (λ k d. library_directory_delete-IsGood n depth (pos k) d) fuel.0
          (files-IsGood n z db good)) in
    rw (e, Ensures, library_directory_delete)
      (IsGood-working n (λ d. (update (remove_directory z) d).1) db₂ good₂
        (λ t last h rooted. (
          refl,
          IsCounted-alike h refl refl,
          All-keep (Below n) (λ r. not (at r.rowid z)) t.directories rooted,
        )))
