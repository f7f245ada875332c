-- ===== src/Library/Rows.antt =====
-- src/db.c: the tables of the schema, with a number for each row; and src/track.h. A column that can
-- be NULL is an `Option`. `artistid` of the table of albums is left out: nothing writes or reads it.
use musicd.Base.{
  ℕ, suc, ◌^◌, ◌%◌, ◌-◌, Bool, false, List, [], ◌∷◌, Option, none, some, ◌==◌, ltb, if◌then◌else◌,
  Bytes, ℤ, pos, negsuc,
}

-- A double is its 64 bits; SQLite stores every one but NaN as it is.
abbrev pub Double : Type 0
Double = ℕ

-- `track_t`. `trackindex` goes through a double, and is exact below 2^53.
pub record Track : Type 0 where
  pub fileid : ℤ
  pub file : Bytes
  pub cuefileid : ℤ
  pub cuefile : Option Bytes
  pub track : ℤ
  pub title : Option Bytes
  pub artistid : ℤ
  pub artist : Option Bytes
  pub albumid : ℤ
  pub album : Option Bytes
  pub start : Double
  pub duration : Double
  pub trackindex : ℤ

pub record DirectoryRow : Type 0 where
  pub rowid : ℕ
  pub path : Bytes
  pub mtime : Option ℤ
  pub parentid : ℤ

pub record FileRow : Type 0 where
  pub rowid : ℕ
  pub path : Bytes
  pub mtime : Option ℤ
  pub directoryid : ℤ

pub record ArtistRow : Type 0 where
  pub rowid : ℕ
  pub name : Bytes

pub record AlbumRow : Type 0 where
  pub rowid : ℕ
  pub name : Bytes
  pub imageid : Option ℤ
  pub tracks : ℕ

pub record TrackRow : Type 0 where
  pub rowid : ℕ
  pub track : Track

pub record ImageRow : Type 0 where
  pub rowid : ℕ
  pub fileid : ℤ
  pub albumid : Option ℤ

pub record LyricsRow : Type 0 where
  pub rowid : ℕ
  pub trackid : ℤ
  pub lyrics : Option Bytes
  pub provider : Option Bytes
  pub source : Option Bytes
  pub mtime : ℤ

pub record Tables : Type 0 where
  pub directories : List DirectoryRow
  pub files : List FileRow
  pub artists : List ArtistRow
  pub albums : List AlbumRow
  pub tracks : List TrackRow
  pub images : List ImageRow
  pub lyrics : List LyricsRow

-- `rowid = ?`
abbrev pub at : ℕ → ℤ → Bool
at n (pos k) = n == k
at n (negsuc k) = false

-- `column = ?`
abbrev pub same : ℤ → ℤ → Bool
same (pos n) (pos k) = n == k
same (negsuc n) (negsuc k) = n == k
same (pos n) (negsuc k) = false
same (negsuc n) (pos k) = false

-- The same for a column that can be NULL, which equals nothing.
abbrev pub holds : Option ℤ → ℤ → Bool
holds none z = false
holds (some y) z = same y z

-- `sqlite3_column_int64`: NULL is read as 0.
abbrev pub column_int64 : Option ℤ → ℤ
column_int64 none = pos 0
column_int64 (some z) = z

-- The lower 32 bits, as an `int`.
unfoldable pub wrap_int : ℤ → ℤ
wrap_int (pos n) =
    let low = n % 2 ^ 32 in if ltb low (2 ^ 31) then pos low else negsuc (2 ^ 32 - 1 - low)
wrap_int (negsuc n) =
    let low = n % 2 ^ 32 in if ltb low (2 ^ 31) then negsuc low else pos (2 ^ 32 - 1 - low)

-- `sqlite3_column_int`
unfoldable pub column_int : Option ℤ → ℤ
unfolding wrap_int
column_int none = pos 0
column_int (some z) = wrap_int z

module _ {A : Type 0} where
  abbrev pub keep : (A → Bool) → List A → List A
  keep p [] = []
  keep p (x ∷ xs) = if p x then x ∷ keep p xs else keep p xs

  abbrev pub count : (A → Bool) → List A → ℕ
  count p [] = 0
  count p (x ∷ xs) = if p x then suc (count p xs) else count p xs

  abbrev pub largest : (A → ℕ) → List A → ℕ
  largest f [] = 0
  largest f (x ∷ xs) = if ltb (largest f xs) (f x) then f x else largest f xs

-- The rowid of a new row: one more than the largest in use.
abbrev pub new_rowid : {A : Type 0} → (A → ℕ) → List A → ℕ
new_rowid f rows = suc (largest f rows)
