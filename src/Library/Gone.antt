-- ===== src/Library/Gone.antt =====
-- src/library.c: what library_directory_delete leaves, while SQLite does not fail.
use mathlib.Core.Path.{subst}
use musicd.Base.{
  ℕ, zero, suc, ◌+◌, ◌<◌, ◌≡◌, refl, sym, Bool, true, false, not, ◌||◌, List, [], ◌∷◌, inl, inr,
  arith, All, Bool-cases, ℤ, pos,
}
use musicd.Memory.{Run, Ensures, Ensures-done, Ensures-weaken}
use musicd.Library.Rows.{DirectoryRow, FileRow, same, at, keep}
use musicd.Library.Statements.{Db, prepare_query, succeeds, execute}
use musicd.Library.Files.{
  library_file_clear, library_file_delete, library_iterate_files_by_directory,
}
use musicd.Library.Selects.{each, iterate, update}
use musicd.Library.Directories.{
  is_child, each_directory, library_iterate_directories, delete_files_cb, delete_directories_cb,
  library_directory_delete, remove_directory,
}
use musicd.Library.Counts.{Below, low, All-keep, All-weaken}
use musicd.Library.Lookup.{working, at_working}
use musicd.Library.Added.{IsGood}
use musicd.Library.Deleting.{
  HasFuel, children-HasFuel, files-IsGood, library_file_delete-IsGood, IsCounted-alike,
}

-- Every directory of the database passes the test.
abbrev pub Every : (DirectoryRow → Bool) → Db → Type 0
Every p db = All (λ r. p r ≡ true) db.tables.directories

-- No directory has this number.
abbrev pub IsWithout : ℤ → Db → Type 0
IsWithout z db = Every (λ r. not (at r.rowid z)) db

-- What a deletion leaves: directories that were there, but for the one deleted.
pub record Removes (n : ℕ) (z : ℤ) (db db' : Db) : Type 0 where
  pub good : IsGood n db'
  pub shrinks : (p : DirectoryRow → Bool) → Every p db → Every p db'
  pub itself : IsWithout z db'

-- The same for a list of them.
pub record RemovesAll (n : ℕ) (rows : List DirectoryRow) (db db' : Db) : Type 0 where
  pub good : IsGood n db'
  pub shrinks : (p : DirectoryRow → Bool) → Every p db → Every p db'
  pub all : All (λ (r : DirectoryRow). IsWithout (pos r.rowid) db') rows

All-kept : {A : Type 0} (p : A → Bool) (xs : List A) → All (λ x. p x ≡ true) (keep p xs)
All-kept p [] = tt
All-kept p (x ∷ xs) = elim (Bool-cases (p x)) [
  | inl e ↦ rw e (e, All-kept p xs)
  | inr e ↦ rw e (All-kept p xs)
]

each_directory-RemovesAll :
    (n depth : ℕ) (delete : ℤ → Db → Run Db) (rows : List DirectoryRow) (db : Db)
    → ((k : ℕ) (d : Db)
        → IsGood n d
        → HasFuel n depth k
        → Ensures (delete (pos k) d) (Removes n (pos k) d))
    → All (λ (r : DirectoryRow). HasFuel n depth r.rowid) rows
    → IsGood n db
    → Ensures (each_directory (delete_directories_cb delete) rows db) (RemovesAll n rows db)
unfolding each_directory delete_directories_cb succeeds
each_directory-RemovesAll n depth delete [] db one fuels good =
    at_working
      (λ d.
        IsGood n d
        → Ensures (each_directory (delete_directories_cb delete) [] d) (RemovesAll n [] d))
      db good.0 (λ t last g. record { good = g; shrinks = λ p h. h; all = tt }) good
each_directory-RemovesAll n depth delete (row ∷ rows) db one fuels good =
    at_working
      (λ d.
        IsGood n d
        → Ensures (each_directory (delete_directories_cb delete) (row ∷ rows) d)
            (RemovesAll n (row ∷ rows) d))
      db good.0
      (λ t last g.
        let (d', e, r) =
          Ensures-done (delete (pos row.rowid) (working t last))
            (Removes n (pos row.rowid) (working t last))
            (one row.rowid (working t last) g fuels.0) in
        let (d'', e', rs) =
          Ensures-done (each_directory (delete_directories_cb delete) rows d')
            (RemovesAll n rows d')
            (each_directory-RemovesAll n depth delete rows d' one fuels.1 r.good) in
        rw (e, Ensures, each_directory, delete_directories_cb)
          (rw e' (record {
            good = rs.good;
            shrinks = λ p h. rs.shrinks p (r.shrinks p h);
            all = (rs.shrinks (λ x. not (at x.rowid (pos row.rowid))) r.itself, rs.all);
          })))
      good

-- The files go, and the directories stay.
files-directories :
    (n : ℕ) (files : List FileRow) (db : Db)
    → IsGood n db
    → (each delete_files_cb files db).1.tables.directories ≡ db.tables.directories
unfolding each delete_files_cb succeeds library_file_delete library_file_clear prepare_query execute
    update
files-directories n [] db good =
    at_working (λ d. (each delete_files_cb [] d).1.tables.directories ≡ d.tables.directories) db
      good.0 (λ t last. refl)
files-directories n (file ∷ files) db good =
    at_working
      (λ d.
        IsGood n d
        → (each delete_files_cb (file ∷ files) d).1.tables.directories ≡ d.tables.directories)
      db good.0
      (λ t last g.
        files-directories n files (library_file_delete (pos file.rowid) (working t last)).1
          (library_file_delete-IsGood n (pos file.rowid) (working t last) g))
      good

files_kept :
    (n : ℕ) (z : ℤ) (db : Db)
    → IsGood n db
    → (library_iterate_files_by_directory z delete_files_cb db).1.tables.directories
      ≡ db.tables.directories
unfolding library_iterate_files_by_directory iterate prepare_query succeeds
files_kept n z db good =
    at_working
      (λ d.
        IsGood n d
        → (library_iterate_files_by_directory z delete_files_cb d).1.tables.directories
          ≡ d.tables.directories)
      db good.0
      (λ t last g.
        files-directories n (keep (λ r. same r.directoryid z) t.files) (working t last) g)
      good

All-true : (rows : List DirectoryRow) → All (λ x. true ≡ true) rows
All-true [] = tt
All-true (x ∷ rows) = (refl, All-true rows)

All-both :
    (p q u : DirectoryRow → Bool) (rows : List DirectoryRow)
    → ((x : DirectoryRow) → p x ≡ true → q x ≡ true → u x ≡ true)
    → All (λ x. p x ≡ true) rows
    → All (λ x. q x ≡ true) rows
    → All (λ x. u x ≡ true) rows
All-both p q u [] f h k = tt
All-both p q u (x ∷ rows) f h k = (f x h.0 k.0, All-both p q u rows f h.1 k.1)

-- A directory of the list has the same number.
abbrev listed : List DirectoryRow → DirectoryRow → Bool
listed [] x = false
listed (r ∷ rows) x = at x.rowid (pos r.rowid) || listed rows x

listed_here : (rows : List DirectoryRow) (r : DirectoryRow) → listed (r ∷ rows) r ≡ true
listed_here rows r = ground arith

listed_more :
    (rows : List DirectoryRow) (r x : DirectoryRow)
    → listed rows x ≡ true
    → listed (r ∷ rows) x ≡ true
listed_more rows r x h = ground (arith, h)

module _ (z : ℤ) where
  -- A child is listed among the children.
  abbrev child_listed : List DirectoryRow → DirectoryRow → Bool
  child_listed rows x = not (is_child z x) || listed rows x

  children-listed :
      (rows : List DirectoryRow) → All (λ x. child_listed (keep (is_child z) rows) x ≡ true) rows
  children-listed [] = tt
  children-listed (r ∷ rows) =
      let Good : List DirectoryRow → Type 0 =
        λ ks. All (λ x. child_listed ks x ≡ true) (r ∷ rows) in
      elim (Bool-cases (is_child z r)) [
        | inl e ↦
            let same_rows : keep (is_child z) (r ∷ rows) ≡ r ∷ keep (is_child z) rows = rw e refl in
            subst Good (sym same_rows) (
              ground (arith, listed_here (keep (is_child z) rows) r),
              All-weaken (λ x. child_listed (keep (is_child z) rows) x ≡ true)
                  (λ x. child_listed (r ∷ keep (is_child z) rows) x ≡ true) rows
                  (λ x h. ground (arith, h)) (children-listed rows),
            )
        | inr e ↦
            let same_rows : keep (is_child z) (r ∷ rows) ≡ keep (is_child z) rows = rw e refl in
            subst Good (sym same_rows) (ground (arith, e), children-listed rows)
      ]

  unlisted :
      (rows : List DirectoryRow) (db : Db)
      → All (λ (r : DirectoryRow). IsWithout (pos r.rowid) db) rows
      → Every (λ x. not (listed rows x)) db
  unlisted [] db h = All-true db.tables.directories
  unlisted (r ∷ rows) db h =
      All-both (λ x. not (at x.rowid (pos r.rowid))) (λ x. not (listed rows x))
        (λ x. not (listed (r ∷ rows) x)) db.tables.directories (λ x a b. ground (arith, a, b)) h.0
        (unlisted rows db h.1)

  no_child :
      (rows : List DirectoryRow) (db : Db)
      → Every (child_listed rows) db
      → Every (λ x. not (listed rows x)) db
      → Every (λ x. not (is_child z x)) db
  no_child rows db =
      All-both (child_listed rows) (λ x. not (listed rows x)) (λ x. not (is_child z x))
        db.tables.directories (λ x a b. ground (arith, a, b))

-- The deletion of a directory: it is gone, and so is every child of it.
pub record IsGone (n : ℕ) (z : ℤ) (db db' : Db) : Type 0 where
  pub removes : Removes n z db db'
  pub childless : Every (λ x. not (is_child z x)) db'

iterate-RemovesAll :
    (n depth : ℕ) (z : ℤ) (delete : ℤ → Db → Run Db) (db : Db)
    → ((k : ℕ) (d : Db)
        → IsGood n d
        → HasFuel n depth k
        → Ensures (delete (pos k) d) (Removes n (pos k) d))
    → n < suc depth + low z
    → IsGood n db
    → Ensures
        (library_iterate_directories z (delete_directories_cb delete) db)
        (RemovesAll n (keep (is_child z) db.tables.directories) db)
unfolding library_iterate_directories prepare_query succeeds
iterate-RemovesAll n depth z delete db one fuel good =
    at_working
      (λ d.
        IsGood n d
        → Ensures (library_iterate_directories z (delete_directories_cb delete) d)
            (RemovesAll n (keep (is_child z) d.tables.directories) d))
      db good.0
      (λ t last g.
        each_directory-RemovesAll n depth delete (keep (is_child z) t.directories) (working t last)
          one (children-HasFuel n depth z t.directories fuel g.2) g)
      good

-- In a database as the calls of Library/Calls leave it, in which every directory has a larger number than
-- its parent, its number and those of albums are at most `n`, each album counts just the tracks that have
-- it and a track's album number is 0 or one that was given, while SQLite does not fail: a directory is
-- deleted within a depth of more than `n` less its number, one at least. Then no directory has its
-- number, none has it as parent, no other has been added, and the albums still count their tracks.
pub library_directory_delete-IsGone :
    (n depth : ℕ) (z : ℤ) (db : Db)
    → IsGood n db
    → HasFuel n depth (low z)
    → Ensures (library_directory_delete depth z db) (IsGone n z db)
unfolding library_directory_delete update prepare_query succeeds execute
library_directory_delete-IsGone n zero z db good fuel = absurd (omega (arith, fuel.1))
library_directory_delete-IsGone n (suc depth) z db good fuel =
    let db₁ : Db = (library_iterate_files_by_directory z delete_files_cb db).1 in
    let kept : db₁.tables.directories ≡ db.tables.directories = files_kept n z db good in
    let rows : List DirectoryRow = keep (is_child z) db₁.tables.directories in
    let (db₂, e, r) =
      Ensures-done
        (library_iterate_directories z (delete_directories_cb (library_directory_delete depth)) db₁)
        (RemovesAll n rows db₁)
        (iterate-RemovesAll n depth z (library_directory_delete depth) db₁
          (λ k d g f.
            Ensures-weaken (library_directory_delete depth (pos k) d) (IsGone n (pos k) d)
              (Removes n (pos k) d) (library_directory_delete-IsGone n depth (pos k) d g f)
              (λ d' gone. gone.removes))
          fuel.0 (files-IsGood n z db good)) in
    let shrunk : (p : DirectoryRow → Bool) → Every p db → Every p db₂ =
      λ p h. r.shrinks p (subst (All (λ x. p x ≡ true)) (sym kept) h) in
    let none_left : Every (λ x. not (is_child z x)) db₂ =
      no_child z rows db₂
        (r.shrinks (child_listed z rows) (children-listed z db₁.tables.directories))
        (unlisted z rows db₂ r.all) in
    rw (e, Ensures, library_directory_delete)
      (at_working
        (λ d.
          IsGood n d
          → ((p : DirectoryRow → Bool) → Every p db → Every p d)
          → Every (λ x. not (is_child z x)) d
          → IsGone n z db (update (remove_directory z) d).1)
        db₂ r.good.0
        (λ t last g s c.
          let others : DirectoryRow → Bool = λ x. not (at x.rowid z) in
          record {
            removes = record {
              good = (
                refl,
                IsCounted-alike g.1 refl refl,
                All-keep (Below n) others t.directories g.2,
              );
              shrinks = λ p h. All-keep (λ x. p x ≡ true) others t.directories (s p h);
              itself = All-kept others t.directories;
            };
            childless = All-keep (λ x. not (is_child z x) ≡ true) others t.directories c;
          })
        r.good shrunk none_left)
