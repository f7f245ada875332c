-- ===== src/Library/Lookup.antt =====
-- src/library.c: field_rowid and field_rowid_create while SQLite does not fail.
use mathlib.Core.Path.{subst}
use musicd.Base.{
  ℕ, ◌≤◌, ◌<◌, ◌^◌, ◌≡◌, refl, sym, ap, Bool, true, false, List, [], ◌∷◌, Option, some, arith,
  Bytes, ℤ, pos, negsuc,
}
use musicd.Library.Rows.{Tables, wrap_int, column_int, same}
use musicd.Library.Statements.{
  Db, prepare_query, succeeds, execute_scalar, execute_insert, scalar_insert, Table, is_taken,
  fields, rowids_of, field_rowid, field_rowid_create,
}

-- A database whose SQLite does not fail.
abbrev pub working : Tables → ℤ → Db
working t last = record { tables = t; last_insert_rowid = last; answers = [] }

-- A database without answers left is a working one.
pub working_form : (db : Db) → db.answers ≡ [] → db ≡ working db.tables db.last_insert_rowid
working_form db e =
    let with : List Bool → Db = λ answers. record db { answers = answers } in ap with e

-- What holds of the working databases holds of one without answers left.
pub at_working :
    (P : Db → Type 0) (db : Db)
    → db.answers ≡ []
    → ((t : Tables) (last : ℤ) → P (working t last))
    → P db
at_working P db quiet h = subst P (sym (working_form db quiet)) (h db.tables db.last_insert_rowid)

pub same→eq : (y z : ℤ) → same y z ≡ true → y ≡ z
same→eq (pos m) (pos k) e = ap pos (ground (arith, e))
same→eq (negsuc m) (negsuc k) e = ap negsuc (ground (arith, e))
same→eq (pos m) (negsuc k) e = absurd (ground arith)
same→eq (negsuc m) (pos k) e = absurd (ground arith)

-- A number below 2^31 is read back.
pub wrap_int_small : (n : ℕ) → n < 2 ^ 31 → wrap_int (pos n) ≡ pos n
unfolding wrap_int
wrap_int_small n h = ground arith

pub is_taken_new :
    (table : Table) (value : Bytes) (t : Tables)
    → rowids_of value (fields table t) ≡ []
    → is_taken table value t ≡ false
unfolding is_taken
is_taken_new table value t e = rw (is_taken, e) refl

module _ (table : Table) (value : Bytes) (t : Tables) (last : ℤ) (k : ℕ) (rest : List (Option ℤ))
    (e : rowids_of value (fields table t) ≡ some (pos k) ∷ rest) (small : k < 2 ^ 31) where
  pub field_rowid_found : field_rowid table value (working t last) ≡ (pos k, working t last)
  unfolding field_rowid prepare_query succeeds execute_scalar column_int
  field_rowid_found = rw e (rw (wrap_int_small k small) refl)

  pub field_rowid_create_found :
      (fresh : Tables → ℕ) (add : ℕ → Tables → Tables)
      → 1 ≤ k
      → field_rowid_create table fresh add value (working t last) ≡ (pos k, working t last)
  unfolding field_rowid_create field_rowid prepare_query succeeds execute_scalar column_int
  field_rowid_create_found fresh add from = ground (arith, e, wrap_int_small k small)

module _ (table : Table) (value : Bytes) (t : Tables) (last : ℤ)
    (e : rowids_of value (fields table t) ≡ []) where
  pub field_rowid_new : field_rowid table value (working t last) ≡ (pos 0, working t last)
  unfolding field_rowid prepare_query succeeds execute_scalar
  field_rowid_new = rw e refl

  pub scalar_insert_new :
      (fresh : Tables → ℕ) (add : ℕ → Tables → Tables)
      → scalar_insert (is_taken table value) fresh add (working t last)
        ≡ (pos 0, working (add (fresh t) t) (pos (fresh t)))
  unfolding scalar_insert execute_insert succeeds
  scalar_insert_new fresh add = rw (is_taken_new table value t e) refl

  pub field_rowid_create_new :
      (fresh : Tables → ℕ) (add : ℕ → Tables → Tables)
      → field_rowid_create table fresh add value (working t last)
        ≡ (pos (fresh t), working (add (fresh t) t) (pos (fresh t)))
  unfolding field_rowid_create field_rowid prepare_query succeeds execute_scalar
  field_rowid_create_new fresh add = ground (arith, e, scalar_insert_new fresh add)
