-- ===== src/Library/Selects.antt =====
-- src/library.c: what its functions do in the same way: a SELECT or an UPDATE is prepared and executed,
-- and the rows of a SELECT are given to a callback.
use musicd.Base.{Bool, true, false, List, [], ◌∷◌, Option, none, some, if◌then◌else◌, Bytes, ℤ}
use musicd.Library.Rows.{Tables}
use musicd.Library.Statements.{
  Query, pure, ◌>>=◌, succeeds, read, prepare_query, execute, execute_scalar,
}

-- The first column of the first row as text, where a SELECT gives one.
unfoldable pub select_path : (Tables → List Bytes) → Query (Option Bytes)
unfolding prepare_query succeeds
select_path select = do
  prepared ← prepare_query
  elim prepared [
    | false ↦ pure none
    | true ↦ do
      good ← succeeds
      rows ← read select
      pure (
          if good
          then elim rows as (λ _. Option Bytes) [ [] ↦ none | path ∷ _ ↦ some path ]
          else none)
  ]

-- `execute_scalar` of a SELECT that is prepared first; `missing` is what the caller gives otherwise.
unfoldable pub select_int : ℤ → (Tables → List (Option ℤ)) → Query ℤ
unfolding prepare_query execute_scalar
select_int missing select = do
  prepared ← prepare_query
  elim prepared [ false ↦ pure missing | true ↦ execute_scalar select ]

-- `execute` of a statement that is prepared first, where nothing looks at how it ends.
unfoldable pub update : (Tables → Tables) → Query Unit
unfolding prepare_query execute
update f = do
  prepared ← prepare_query
  elim prepared [ false ↦ pure tt | true ↦ do executed ← execute f; pure tt ]

-- The steps of a SELECT; a callback that returns false ends it, and so does a step that fails.
unfoldable pub each : {A : Type 0} → (A → Query Bool) → List A → Query Unit
unfolding succeeds
each callback [] = do last ← succeeds; pure tt
each callback (row ∷ rows) = do
  good ← succeeds
  elim good [
    | false ↦ pure tt
    | true ↦ do go_on ← callback row; elim go_on [ false ↦ pure tt | true ↦ each callback rows ]
  ]

unfoldable pub iterate : {A : Type 0} → (Tables → List A) → (A → Query Bool) → Query Unit
unfolding prepare_query each
iterate select callback = do
  prepared ← prepare_query
  rows ← read select
  elim prepared [ false ↦ pure tt | true ↦ each callback rows ]

-- The same where the callback changes what its `opaque` points at, and not the database.
unfoldable pub each_opaque :
    {A Opaque : Type 0} → (A → Opaque → Bool × Opaque) → List A → Opaque → Query Opaque
unfolding succeeds
each_opaque callback [] opaque = do last ← succeeds; pure opaque
each_opaque callback (row ∷ rows) opaque = do
  good ← succeeds
  let (go_on, opaque') = callback row opaque
  elim good [
    | false ↦ pure opaque
    | true ↦ elim go_on [ false ↦ pure opaque' | true ↦ each_opaque callback rows opaque' ]
  ]

unfoldable pub iterate_opaque :
    {A Opaque : Type 0} → (Tables → List A) → (A → Opaque → Bool × Opaque) → Opaque → Query Opaque
unfolding prepare_query each_opaque
iterate_opaque select callback opaque = do
  prepared ← prepare_query
  rows ← read select
  elim prepared [ false ↦ pure opaque | true ↦ each_opaque callback rows opaque ]
