-- ===== src/Library/Others.antt =====
-- src/library.c: the other operations while SQLite does not fail.
use mathlib.Core.Path.{subst}
use musicd.Base.{
  Option, ℕ, suc, ◌≤◌, ◌≡◌, refl, sym, ◌⊎◌, List, [], ◌∷◌, map, inl, inr, arith, All, All-append,
  Bytes, ℤ, pos, List-cases,
}
use musicd.Library.Rows.{DirectoryRow, TrackRow, AlbumRow, Tables, largest}
use musicd.Library.Statements.{
  Db, directories_path, is_taken, fields, rowids_of, field_rowid, execute_scalar, scalar_insert,
  prepare_query, succeeds, execute, execute_insert,
}
use musicd.Library.Files.{library_file}
use musicd.Library.Selects.{update}
use musicd.Library.Directories.{
  library_directory, library_directory_mtime_set, fresh_directory, add_directory,
  set_directory_mtime,
}
use musicd.Library.Images.{library_image_add, library_album_image_set, set_imageid}
use musicd.Library.Words.{Lyrics, library_lyrics_set}
use musicd.Library.Counts.{IsCount, top, Below, low}
use musicd.Library.Lookup.{at_working, working}
use musicd.Library.Added.{IsGood, IsRooted-weaken}
use musicd.Library.Named.{IsBeside, IsBeside-IsCounted, IsCounted-weaken, library_file-IsBeside}
use musicd.Library.Deleting.{IsGood-working, IsCounted-alike}

-- A parent that a directory can be added to: nothing, or a number that has been given.
abbrev pub IsParent : ℤ → Tables → Type 0
IsParent z t = low z ≤ largest DirectoryRow.rowid t.directories

pub IsGood-weaken : (n : ℕ) (db : Db) → IsGood n db → IsGood (suc n) db
IsGood-weaken n db (quiet, h, rooted) = (
  quiet,
  IsCounted-weaken n (suc n) db.tables (omega arith) h,
  IsRooted-weaken n db.tables rooted,
)

pub library_file-IsGood :
    (n : ℕ) (path : Bytes) (directory : ℤ) (db : Db)
    → IsGood n db
    → IsGood n (library_file path directory db).1
library_file-IsGood n path directory db good =
    IsGood-working n (λ d. (library_file path directory d).1) db good
      (λ t last h rooted.
        let b : IsBeside t (library_file path directory (working t last)) =
          library_file-IsBeside path directory t last in
        (b.quiet, IsBeside-IsCounted b h, rw b.same_directories rooted))

-- An update of the tables beside those of tracks, albums and directories.
pub beside-IsGood :
    (n : ℕ) (f : Tables → Tables) (db : Db)
    → ((t : Tables) → (f t).albums ≡ t.albums)
    → ((t : Tables) → (f t).tracks ≡ t.tracks)
    → ((t : Tables) → (f t).directories ≡ t.directories)
    → IsGood n db
    → IsGood n (update f db).1
unfolding update prepare_query succeeds execute
beside-IsGood n f db a b c good =
    IsGood-working n (λ d. (update f d).1) db good
      (λ t last h rooted. (refl, IsCounted-alike h (a t) (b t), rw (c t) rooted))

mtimes-IsRooted :
    (n : ℕ) (id mtime : ℤ) (rows : List DirectoryRow)
    → All (Below n) rows
    → All (Below n) (map (set_directory_mtime id mtime) rows)
mtimes-IsRooted n id mtime [] h = tt
mtimes-IsRooted n id mtime (r ∷ rows) h =
    ((ground (arith, h.0.0), ground (arith, h.0.1)), mtimes-IsRooted n id mtime rows h.1)

top-set_imageid :
    (album image : ℤ) (rows : List AlbumRow) → top (map (set_imageid album image) rows) ≡ top rows
top-set_imageid album image [] = refl
top-set_imageid album image (r ∷ rows) = ground (arith, top-set_imageid album image rows)

counts-set_imageid :
    (album image : ℤ) (ts : List TrackRow) (rows : List AlbumRow)
    → All (IsCount ts) rows
    → All (IsCount ts) (map (set_imageid album image) rows)
counts-set_imageid album image ts [] h = tt
counts-set_imageid album image ts (r ∷ rows) h =
    (ground (arith, h.0), counts-set_imageid album image ts rows h.1)

positive-set_imageid :
    (album image : ℤ) (rows : List AlbumRow)
    → All (λ (a : AlbumRow). 1 ≤ a.rowid) rows
    → All (λ (a : AlbumRow). 1 ≤ a.rowid) (map (set_imageid album image) rows)
positive-set_imageid album image [] h = tt
positive-set_imageid album image (r ∷ rows) h =
    (ground (arith, h.0), positive-set_imageid album image rows h.1)

pub library_album_image_set-IsGood :
    (n : ℕ) (album image : ℤ) (db : Db)
    → IsGood n db
    → IsGood n (library_album_image_set album image db).1
unfolding library_album_image_set update prepare_query succeeds execute
library_album_image_set-IsGood n album image db good =
    IsGood-working n (λ d. (library_album_image_set album image d).1) db good
      (λ t last h rooted.
        let same : top (map (set_imageid album image) t.albums) ≡ top t.albums =
          top-set_imageid album image t.albums in
        (
          refl,
          record {
            counted = counts-set_imageid album image t.tracks t.albums h.counted;
            known = rw same h.known;
            positive = positive-set_imageid album image t.albums h.positive;
            bounded = rw same h.bounded;
          },
          rooted,
        ))

pub library_directory_mtime_set-IsGood :
    (n : ℕ) (id mtime : ℤ) (db : Db)
    → IsGood n db
    → IsGood n (library_directory_mtime_set id mtime db).1
unfolding library_directory_mtime_set update prepare_query succeeds execute
library_directory_mtime_set-IsGood n id mtime db good =
    IsGood-working n (λ d. (library_directory_mtime_set id mtime d).1) db good
      (λ t last h rooted.
        (refl, IsCounted-alike h refl refl, mtimes-IsRooted n id mtime t.directories rooted))

pub library_image_add-IsGood :
    (n : ℕ) (id : ℤ) (db : Db) → IsGood n db → IsGood n (library_image_add id db).1
unfolding library_image_add prepare_query succeeds execute_insert
library_image_add-IsGood n id db good =
    IsGood-working n (λ d. (library_image_add id d).1) db good
      (λ t last h rooted. (refl, IsCounted-alike h refl refl, rooted))

-- Either nothing is added, or a directory with a new number.
library_directory_ends :
    (path : Bytes) (parent : ℤ) (t : Tables) (last : ℤ)
    → ((library_directory path parent (working t last)).1 ≡ working t last)
      ⊎ ((library_directory path parent (working t last)).1
          ≡ working (add_directory path parent (fresh_directory t) t) (pos (fresh_directory t)))
unfolding library_directory field_rowid prepare_query succeeds execute_scalar scalar_insert
    execute_insert is_taken fields
library_directory_ends path parent t last =
    elim (List-cases (rowids_of path (fields directories_path t))) [
      | inl e ↦ ground (arith, e)
      | inr (x, rest, e) ↦ ground (arith, e)
    ]

largest-Below :
    (n : ℕ) (rows : List DirectoryRow) → All (Below n) rows → largest DirectoryRow.rowid rows ≤ n
largest-Below n [] h = omega arith
largest-Below n (r ∷ rows) h = ground (arith, h.0.1, largest-Below n rows h.1)

pub library_directory-IsGood :
    (n : ℕ) (path : Bytes) (parent : ℤ) (db : Db)
    → IsGood n db
    → IsParent parent db.tables
    → IsGood (suc n) (library_directory path parent db).1
library_directory-IsGood n path parent db good is_parent =
    at_working
      (λ d.
        IsParent parent d.tables → IsGood n d → IsGood (suc n) (library_directory path parent d).1)
      db good.0
      (λ t last is_parent' good'. elim (library_directory_ends path parent t last) [
        | inl e ↦ subst (IsGood (suc n)) (sym e) (IsGood-weaken n (working t last) good')
        | inr e ↦ subst (IsGood (suc n)) (sym e) (
          refl,
          IsCounted-alike (IsCounted-weaken n (suc n) t (omega arith) good'.1) refl refl,
          All-append (Below (suc n)) t.directories _ (IsRooted-weaken n t good'.2) (
            (omega (arith, is_parent'), omega (arith, largest-Below n t.directories good'.2)),
            tt,
          ),
        )
      ])
      is_parent good

pub library_lyrics_set-IsGood :
    (n : ℕ) (track : ℤ) (lyrics : Option Lyrics) (now : ℤ) (db : Db)
    → IsGood n db
    → IsGood n (library_lyrics_set track lyrics now db).1
unfolding library_lyrics_set prepare_query succeeds execute_insert
library_lyrics_set-IsGood n track lyrics now db good =
    IsGood-working n (λ d. (library_lyrics_set track lyrics now d).1) db good
      (λ t last h rooted. (refl, IsCounted-alike h refl refl, rooted))
