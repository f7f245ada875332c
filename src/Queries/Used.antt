-- ===== src/Queries/Used.antt =====
-- The fields of a query that give a clause of its SQL: those with a filter and a column.
use musicd.Base.{◌≡◌, none, some, Bytes, Option-cases, inl, inr}
use musicd.Queries.Sql.{used}
use musicd.Queries.{Field, maps, Query}

module _ (query : Query) (f : Field) where
  pub used-none : query.filters f ≡ none → used query f ≡ none
  unfolding used
  used-none h = rw (h, used)

  pub used-some :
      (filter column : Bytes)
      → query.filters f ≡ some filter
      → maps query.format f ≡ some column
      → used query f ≡ some (column, filter)
  unfolding used
  used-some filter column h k = rw (h, used) (rw k)

  pub used_unmapped : maps query.format f ≡ none → used query f ≡ none
  unfolding used
  used_unmapped h = elim (Option-cases (query.filters f)) [
    | inl e ↦ rw (e, used)
    | inr (text, e) ↦ rw (e, used) (rw h)
  ]
