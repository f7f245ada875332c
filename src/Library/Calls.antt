-- ===== src/Library/Calls.antt =====
-- src/library.c: the calls that change the database, one after another, from an empty database and
-- while SQLite does not fail.
use mathlib.Core.Path.{subst}
use musicd.Base.{ℕ, suc, ◌<◌, ◌^◌, ◌≡◌, refl, [], Option, none, arith, Bytes, ℤ, pos}
use musicd.Memory.{done, Ensures}
use musicd.Library.Rows.{Track, Tables}
use musicd.Library.Statements.{Db}
use musicd.Library.Files.{
  library_track_add, library_file, library_file_mtime_set, library_file_clear, library_file_delete,
}
use musicd.Library.Directories.{
  library_directory, library_directory_mtime_set, library_directory_delete,
}
use musicd.Library.Images.{
  library_image_add, library_album_image_set, library_image_album_set_by_directory,
}
use musicd.Library.Words.{Lyrics, library_lyrics_set}
use musicd.Library.Lookup.{working}
use musicd.Library.Added.{IsGood, library_track_add-IsGood}
use musicd.Library.Deleting.{
  library_file_clear-IsGood, library_file_delete-IsGood, library_directory_delete-IsGood,
}
use musicd.Library.Others.{
  library_lyrics_set-IsGood, IsParent, IsGood-weaken, library_file-IsGood, beside-IsGood,
  library_directory_mtime_set-IsGood, library_directory-IsGood, library_image_add-IsGood,
  library_album_image_set-IsGood,
}

abbrev pub no_tables : Tables
no_tables = record {
  directories = [];
  files = [];
  artists = [];
  albums = [];
  tracks = [];
  images = [];
  lyrics = [];
}

-- What `n` calls, made as the program makes them, have made of the empty database: the parent of a
-- new directory is not positive, or at most the largest number of a directory that there is, and a
-- track without an album has the album number 0. The scan passes parents that `library_directory` or
-- the table gave, and tracks come with the numbers of `track_new`. Each directory is deleted with fuel
-- `suc n`.
pub data Reach : ℕ → Db → Type 0 where
  start : (last : ℤ) → Reach 0 (working no_tables last)
  track_add :
      {n : ℕ} {db : Db} (track : Track) (directory : ℤ)
      → (track.album ≡ none → track.albumid ≡ pos 0)
      → Reach n db
      → Reach (suc n) (library_track_add track directory db).1
  file :
      {n : ℕ} {db : Db} (path : Bytes) (directory : ℤ)
      → Reach n db
      → Reach (suc n) (library_file path directory db).1
  file_mtime_set :
      {n : ℕ} {db : Db} (id mtime : ℤ)
      → Reach n db
      → Reach (suc n) (library_file_mtime_set id mtime db).1
  file_clear : {n : ℕ} {db : Db} (id : ℤ) → Reach n db → Reach (suc n) (library_file_clear id db).1
  file_delete :
      {n : ℕ} {db : Db} (id : ℤ) → Reach n db → Reach (suc n) (library_file_delete id db).1
  directory :
      {n : ℕ} {db : Db} (path : Bytes) (parent : ℤ)
      → IsParent parent db.tables
      → Reach n db
      → Reach (suc n) (library_directory path parent db).1
  directory_mtime_set :
      {n : ℕ} {db : Db} (id mtime : ℤ)
      → Reach n db
      → Reach (suc n) (library_directory_mtime_set id mtime db).1
  directory_delete :
      {n : ℕ} {db db' : Db} (id : ℤ)
      → library_directory_delete (suc n) id db ≡ done db'
      → Reach n db
      → Reach (suc n) db'
  image_add : {n : ℕ} {db : Db} (id : ℤ) → Reach n db → Reach (suc n) (library_image_add id db).1
  album_image_set :
      {n : ℕ} {db : Db} (album image : ℤ)
      → Reach n db
      → Reach (suc n) (library_album_image_set album image db).1
  image_album_set :
      {n : ℕ} {db : Db} (id album : ℤ)
      → Reach n db
      → Reach (suc n) (library_image_album_set_by_directory id album db).1
  lyrics_set :
      {n : ℕ} {db : Db} (track : ℤ) (lyrics : Option Lyrics) (now : ℤ)
      → Reach n db
      → Reach (suc n) (library_lyrics_set track lyrics now db).1

-- After fewer than 2^31 calls on an empty database, while SQLite does not fail, where a new directory's
-- parent is not positive or at most the largest number of a directory that there is, and a track
-- without an album has the album number 0: each album counts just the tracks that have it, the album of a track is 0 or a number that was given, and a directory has a
-- larger number than its parent.
pub Reach-IsGood : {n : ℕ} {db : Db} → Reach n db → n < 2 ^ 31 → IsGood n db
unfolding library_file_mtime_set library_image_album_set_by_directory
Reach-IsGood (start last) less =
    (refl, record { counted = tt; known = tt; positive = tt; bounded = omega arith }, tt)
Reach-IsGood (track_add {n} {db} track d z r) less =
    library_track_add-IsGood n track d db (Reach-IsGood r (omega arith)) (omega arith) z
Reach-IsGood (file {n} {db} path d r) less =
    IsGood-weaken n (library_file path d db).1
      (library_file-IsGood n path d db (Reach-IsGood r (omega arith)))
Reach-IsGood (file_mtime_set {n} {db} id mtime r) less =
    IsGood-weaken n (library_file_mtime_set id mtime db).1
      (beside-IsGood n _ db (λ t. refl) (λ t. refl) (λ t. refl) (Reach-IsGood r (omega arith)))
Reach-IsGood (file_clear {n} {db} id r) less =
    IsGood-weaken n (library_file_clear id db).1
      (library_file_clear-IsGood n id db (Reach-IsGood r (omega arith)))
Reach-IsGood (file_delete {n} {db} id r) less =
    IsGood-weaken n (library_file_delete id db).1
      (library_file_delete-IsGood n id db (Reach-IsGood r (omega arith)))
Reach-IsGood (directory {n} {db} path parent p r) less =
    library_directory-IsGood n path parent db (Reach-IsGood r (omega arith)) p
Reach-IsGood (directory_mtime_set {n} {db} id mtime r) less =
    IsGood-weaken n (library_directory_mtime_set id mtime db).1
      (library_directory_mtime_set-IsGood n id mtime db (Reach-IsGood r (omega arith)))
Reach-IsGood (directory_delete {n} {db} {db'} id e r) less = IsGood-weaken n db' (
    subst (λ m. Ensures m (IsGood n)) e
      (library_directory_delete-IsGood n (suc n) id db (Reach-IsGood r (omega arith))
        (omega arith, omega arith)))
Reach-IsGood (image_add {n} {db} id r) less =
    IsGood-weaken n (library_image_add id db).1
      (library_image_add-IsGood n id db (Reach-IsGood r (omega arith)))
Reach-IsGood (album_image_set {n} {db} album image r) less =
    IsGood-weaken n (library_album_image_set album image db).1
      (library_album_image_set-IsGood n album image db (Reach-IsGood r (omega arith)))
Reach-IsGood (image_album_set {n} {db} id album r) less =
    IsGood-weaken n (library_image_album_set_by_directory id album db).1
      (beside-IsGood n _ db (λ t. refl) (λ t. refl) (λ t. refl) (Reach-IsGood r (omega arith)))
Reach-IsGood (lyrics_set {n} {db} track lyrics now r) less =
    IsGood-weaken n (library_lyrics_set track lyrics now db).1
      (library_lyrics_set-IsGood n track lyrics now db (Reach-IsGood r (omega arith)))
