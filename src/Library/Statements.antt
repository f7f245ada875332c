-- ===== src/Library/Statements.antt =====
-- src/library.c: prepare_query, execute, execute_scalar, field_rowid and field_rowid_create, and how
-- a statement's steps end.
use musicd.Base.{
  ℕ, Bool, true, false, List, [], ◌∷◌, map, Option, some, if◌then◌else◌, Bytes, equal, ℤ, pos,
  negsuc, is_positive,
}
use musicd.Library.Rows.{Tables, DirectoryRow, FileRow, ArtistRow, AlbumRow, column_int}

-- The database as the program sees it. SQLite answers each `sqlite3_prepare_v2` and each
-- `sqlite3_step` with success or an error: `answers` are the next of them, and all succeed after.
pub record Db : Type 0 where
  pub tables : Tables
  pub last_insert_rowid : ℤ
  pub answers : List Bool

abbrev pub Query : Type 0 → Type 0
Query A = Db → A × Db

abbrev pub pure : {A : Type 0} → A → Query A
pure a db = (a, db)

infixl 5 ◌>>=◌ ◌>>◌
abbrev pub ◌>>=◌ : {A B : Type 0} → Query A → (A → Query B) → Query B
◌>>=◌ m f db = let (a, db') = m db in f a db'

abbrev pub ◌>>◌ : {A B : Type 0} → Query A → Query B → Query B
m >> k = m >>= λ _. k

-- The next answer of SQLite.
unfoldable pub succeeds : Query Bool
succeeds db = elim db.answers [
  | [] ↦ (true, db)
  | answer ∷ answers ↦ (answer, record db { answers = answers })
]

abbrev pub read : {A : Type 0} → (Tables → A) → Query A
read f db = (f db.tables, db)

abbrev pub change : (Tables → Tables) → Query Unit
change f db = (tt, record db { tables = f db.tables })

abbrev pub last_insert : Query ℤ
last_insert db = (db.last_insert_rowid, db)

unfoldable pub prepare_query : Query Bool
unfolding succeeds
prepare_query = succeeds

-- `execute` of a statement that changes rows.
unfoldable pub execute : (Tables → Tables) → Query Bool
unfolding succeeds
execute f = do good ← succeeds; if good then (do change f; pure true) else pure false

-- A row is added, and its rowid remembered.
abbrev pub insert : (Tables → ℕ) → (ℕ → Tables → Tables) → Query Unit
insert fresh add db = (
  tt,
  record db { tables = add (fresh db.tables) db.tables; last_insert_rowid = pos (fresh db.tables) },
)

-- `execute` and `execute_scalar` of an INSERT; `taken` is whether a UNIQUE column refuses the row.
unfoldable pub execute_insert : (Tables → Bool) → (Tables → ℕ) → (ℕ → Tables → Tables) → Query Bool
unfolding succeeds
execute_insert taken fresh add = do
  good ← succeeds
  refused ← read taken
  if good then (if refused then pure false else (do insert fresh add; pure true)) else pure false

unfoldable pub scalar_insert : (Tables → Bool) → (Tables → ℕ) → (ℕ → Tables → Tables) → Query ℤ
unfolding execute_insert
scalar_insert taken fresh add = do
  good ← execute_insert taken fresh add
  pure (if good then pos 0 else negsuc 0)

-- `execute_scalar` of a SELECT: the first column of the first row.
unfoldable pub execute_scalar : (Tables → List (Option ℤ)) → Query ℤ
unfolding succeeds column_int
execute_scalar select = do
  good ← succeeds
  rows ← read select
  pure (
      if good
      then elim rows as (λ _. ℤ) [ [] ↦ pos 0 | value ∷ _ ↦ column_int value ]
      else negsuc 0)

-- The tables that `field_rowid` is called for, with the field that it compares.
pub data Table : Type 0 where
  files_path directories_path artists_name albums_name : Table

-- The rowids and the field of the rows of a table.
unfoldable pub fields : Table → Tables → List (ℕ × Bytes)
fields files_path t = map (λ (r : FileRow). (r.rowid, r.path)) t.files
fields directories_path t = map (λ (r : DirectoryRow). (r.rowid, r.path)) t.directories
fields artists_name t = map (λ (r : ArtistRow). (r.rowid, r.name)) t.artists
fields albums_name t = map (λ (r : AlbumRow). (r.rowid, r.name)) t.albums

-- `SELECT rowid FROM table WHERE field = ?`
unfoldable pub rowids_of : Bytes → List (ℕ × Bytes) → List (Option ℤ)
rowids_of value [] = []
rowids_of value ((rowid, field) ∷ rows) =
    if equal field value then some (pos rowid) ∷ rowids_of value rows else rowids_of value rows

-- A UNIQUE field has this value already.
unfoldable pub is_taken : Table → Bytes → Tables → Bool
unfolding rowids_of fields
is_taken table value t = elim (rowids_of value (fields table t)) as (λ _. Bool) [
  | [] ↦ false
  | _ ∷ _ ↦ true
]

unfoldable pub field_rowid : Table → Bytes → Query ℤ
unfolding prepare_query execute_scalar rowids_of fields
field_rowid table value = do
  prepared ← prepare_query
  elim prepared [
    | false ↦ pure (negsuc 0)
    | true ↦ execute_scalar (λ t. rowids_of value (fields table t))
  ]

-- `fresh` and `add` stand for the INSERT into the table. What it gives is not looked at.
unfoldable pub field_rowid_create : Table → (Tables → ℕ) → (ℕ → Tables → Tables) → Bytes → Query ℤ
unfolding field_rowid scalar_insert is_taken
field_rowid_create table fresh add value = do
  result ← field_rowid table value
  elim (is_positive result) [
    | true ↦ pure result
    | false ↦ do
      prepared ← prepare_query
      inserted ←
          if prepared then scalar_insert (is_taken table value) fresh add else pure (negsuc 0)
      last_insert
  ]
