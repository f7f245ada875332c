-- ===== src/Queries/Index.antt =====
-- `query_index`: where an id stands among the rows of a query. The database is a parameter: whether
-- the statement can be prepared, the ids of the rows that it gives, and whether it then reports
-- SQLITE_DONE. Ids are taken as numbers.
use mathlib.Core.Path.{subst}
use musicd.Base.{
  ℕ, suc, ◌+◌, ◌≡◌, refl, Bool, true, false, List, [], ◌∷◌, sym, ap, ◌∙◌, ◌⊎◌, inl, inr, ◌==◌,
  arith, Bool-cases, if◌then◌else◌, ℤ, pos, negsuc, ==_iff,
}

pub record Answers : Type 0 where
  pub prepared : Bool
  pub rows : List ℕ
  pub finished : Bool

unfoldable pub scan_rows : ℕ → ℕ → List ℕ → Bool → ℤ
scan_rows id index [] finished = if finished then pos 0 else negsuc 0
scan_rows id index (row ∷ rows) finished =
    if row == id then pos index else scan_rows id (index + 1) rows finished

unfoldable pub query_index : Answers → ℕ → ℤ
query_index answers id =
    if answers.prepared then scan_rows id 1 answers.rows answers.finished else negsuc 0

-- The first row with the id has these rows before it.
pub data FirstRow (id : ℕ) : List ℕ → ℕ → Type 0 where
  here : {row : ℕ} {rows : List ℕ} → row ≡ id → FirstRow id (row ∷ rows) 0
  later :
      {row n : ℕ} {rows : List ℕ}
      → (row == id) ≡ false
      → FirstRow id rows n
      → FirstRow id (row ∷ rows) (suc n)

scan_rows-FirstRow :
    (id index : ℕ) {rows : List ℕ} {n : ℕ} (finished : Bool)
    → FirstRow id rows n
    → scan_rows id index rows finished ≡ pos (index + n)
unfolding scan_rows
scan_rows-FirstRow id index finished (here {row} {rows} e) = ground arith
scan_rows-FirstRow id index finished (later {row} {n} {rows} other f) =
    ground (arith, scan_rows-FirstRow id (index + 1) finished f)

abbrev pub absent : ℕ → List ℕ → Bool
absent id [] = true
absent id (row ∷ rows) = if row == id then false else absent id rows

scan_rows-absent :
    (id index : ℕ) (rows : List ℕ) (finished : Bool)
    → absent id rows ≡ true
    → scan_rows id index rows finished ≡ (if finished then pos 0 else negsuc 0)
unfolding scan_rows
scan_rows-absent id index [] finished h = refl
scan_rows-absent id index (row ∷ rows) finished h =
    ground (arith, scan_rows-absent id (index + 1) rows finished)

-- What `query_index` may answer, and when.
pub data Indexed (answers : Answers) (id : ℕ) : ℤ → Type 0 where
  at_row :
      {n : ℕ}
      → answers.prepared ≡ true
      → FirstRow id answers.rows n
      → Indexed answers id (pos (n + 1))
  missing :
      answers.prepared ≡ true
      → absent id answers.rows ≡ true
      → answers.finished ≡ true
      → Indexed answers id (pos 0)
  broken_off :
      answers.prepared ≡ true
      → absent id answers.rows ≡ true
      → answers.finished ≡ false
      → Indexed answers id (negsuc 0)
  unprepared : answers.prepared ≡ false → Indexed answers id (negsuc 0)

search_rows : (id : ℕ) (rows : List ℕ) → ((n : ℕ) × FirstRow id rows n) ⊎ (absent id rows ≡ true)
search_rows id [] = inr refl
search_rows id (row ∷ rows) = elim (Bool-cases (row == id)) [
  | inl same ↦ inl (0, here ((==_iff row id).0 same))
  | inr other ↦ elim (search_rows id rows) [
    | inl (n, f) ↦ inl (suc n, later other f)
    | inr none_there ↦ inr (rw other none_there)
  ]
]

-- `query_index` answers n + 1 for the first row with the id, which has n rows before it, whatever
-- comes behind it; without one it answers 0, or a negative number if the rows ended by an error;
-- and a negative number if the statement could not be prepared.
pub query_index-Indexed : (answers : Answers) (id : ℕ) → Indexed answers id (query_index answers id)
unfolding query_index
query_index-Indexed answers id = elim (Bool-cases answers.prepared) [
  | inr broken ↦
      let e : query_index answers id ≡ negsuc 0 = rw broken refl in
      subst (Indexed answers id) (sym e) (unprepared broken)
  | inl ready ↦ elim (search_rows id answers.rows) [
    | inl (n, f) ↦
        let e : query_index answers id ≡ pos (n + 1) =
          rw ready (scan_rows-FirstRow id 1 answers.finished f ∙ ap pos (omega arith)) in
        subst (Indexed answers id) (sym e) (at_row ready f)
    | inr none_there ↦
        let e : query_index answers id ≡ (if answers.finished then pos 0 else negsuc 0) =
          rw ready (scan_rows-absent id 1 answers.rows answers.finished none_there) in
        elim (Bool-cases answers.finished) [
          | inl all_read ↦
              subst (Indexed answers id)
                (sym (e ∙ ap (λ b. if b then pos 0 else negsuc 0) all_read))
                (missing ready none_there all_read)
          | inr failed ↦
              subst (Indexed answers id) (sym (e ∙ ap (λ b. if b then pos 0 else negsuc 0) failed))
                (broken_off ready none_there failed)
        ]
  ]
]
