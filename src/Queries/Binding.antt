-- ===== src/Queries/Binding.antt =====
-- Question marks in the SQL against the values bound to them.
use musicd.Base.{
  ℕ, ◌+◌, ◌≡◌, refl, sym, ap, ◌∙◌, Bool, true, false, not, List, [], ◌∷◌, ◌++◌, Option, none, some,
  inl, inr, ◌==◌, arith, Bytes, codes, Bool-cases, Option-cases, if◌then◌else◌, is_some, length,
  All,
}
use musicd.Queries.Safety.{IsIdList, IsSafe}
use musicd.Queries.Sql.{
  clause, used, add_filters, build_filters, field_texts, numbered, bind_from, bind_filters,
  count_sql, count, from,
}
use musicd.Queries.Used.{used-none, used-some, used_unmapped}
use musicd.Queries.{
  Field, trackid, title, artist, id_field, filter_fields, Format, track_query, artist_query,
  album_query, track_maps, artist_maps, album_maps, maps, Query, query_new, query_filter,
  filter_text, like_field, percent,
}

abbrev pub marks : Bytes → ℕ
marks [] = 0
marks (c ∷ s) = (if c == b'?' then 1 else 0) + marks s

marks-append : (s t : Bytes) → marks (s ++ t) ≡ marks s + marks t
marks-append [] t = omega arith
marks-append (c ∷ s) t = omega (arith, marks-append s t)

marks-IsIdList : (s : Bytes) → IsIdList s → marks s ≡ 0
marks-IsIdList [] h = refl
marks-IsIdList (c ∷ s) h = ground (arith, marks-IsIdList s h.1, h.0)

-- The texts that the question marks of the SQL stand for, in their order: those of the fields that
-- have a filter, have a column and are no ids.
abbrev pub wanted : Bytes → Query → List Field → List Bytes
wanted root_path query [] = []
wanted root_path query (f ∷ fs) = elim (used query f) [
  | none ↦ wanted root_path query fs
  | some (column, filter) ↦
      (if id_field f then [] else field_texts root_path f filter) ++ wanted root_path query fs
]

numbered-append :
    (n : ℕ) (s t : List Bytes) → numbered n (s ++ t) ≡ numbered n s ++ numbered (n + length s) t
numbered-append n [] t = ap (λ k. numbered k t) (omega arith)
numbered-append n (x ∷ s) t =
    ap (λ l. (n, x) ∷ l)
      (numbered-append (n + 1) s t ∙ ap (λ k. numbered (n + 1) s ++ numbered k t) (omega arith))

-- Every filtered field that is no id has a column in this kind of query.
abbrev pub IsMapped : Query → Type 0
IsMapped query =
    (f : Field)
    → id_field f ≡ false
    → is_some (query.filters f) ≡ true
    → is_some (maps query.format f) ≡ true

module _ (root_path : Bytes) (query : Query) (f : Field) (fs : List Field) where
  wanted-none : used query f ≡ none → wanted root_path query (f ∷ fs) ≡ wanted root_path query fs
  wanted-none e = rw (e, wanted)

  wanted-some :
      (column filter : Bytes)
      → used query f ≡ some (column, filter)
      → wanted root_path query (f ∷ fs)
        ≡ (if id_field f then [] else field_texts root_path f filter) ++ wanted root_path query fs
  wanted-some column filter e = rw (e, wanted)

  wanted-id : id_field f ≡ true → wanted root_path query (f ∷ fs) ≡ wanted root_path query fs
  wanted-id id = elim (Option-cases (used query f)) [
    | inl e ↦ wanted-none e
    | inr ((column, filter), e) ↦ wanted-some column filter e ∙ rw id
  ]

  bind_from-none :
      (n : ℕ)
      → query.filters f ≡ none
      → bind_from root_path query n (f ∷ fs) ≡ bind_from root_path query n fs
  unfolding bind_from
  bind_from-none n e = rw (e, bind_from)

  bind_from-some :
      (n : ℕ) (filter : Bytes)
      → query.filters f ≡ some filter
      → bind_from root_path query n (f ∷ fs) ≡ (
          if id_field f
          then bind_from root_path query n fs
          else numbered n (field_texts root_path f filter)
            ++ bind_from root_path query (n + length (field_texts root_path f filter)) fs)
  unfolding bind_from
  bind_from-some n filter e = rw (e, bind_from)

is_some-some : (o : Option Bytes) → is_some o ≡ true → (a : Bytes) × (o ≡ some a)
is_some-some none h = absurd (ground arith)
is_some-some (some a) h = (a, refl)

bind_from-wanted :
    (root_path : Bytes) (query : Query) (n : ℕ) (fs : List Field)
    → IsMapped query
    → bind_from root_path query n fs ≡ numbered n (wanted root_path query fs)
bind_from-wanted root_path query n [] mapped = unfold bind_from in refl
bind_from-wanted root_path query n (f ∷ fs) mapped = elim (Option-cases (query.filters f)) [
  | inl e ↦
      bind_from-none root_path query f fs n e
      ∙ bind_from-wanted root_path query n fs mapped
      ∙ ap (numbered n) (sym (wanted-none root_path query f fs (used-none query f e)))
  | inr (text, e) ↦ elim (Bool-cases (id_field f)) [
    | inl id ↦
        bind_from-some root_path query f fs n text e
        ∙ rw id (bind_from-wanted root_path query n fs mapped)
        ∙ ap (numbered n) (sym (wanted-id root_path query f fs id))
    | inr plain ↦
        let (column, m) = is_some-some (maps query.format f) (mapped f plain (ap is_some e)) in
        let texts = field_texts root_path f text in
        bind_from-some root_path query f fs n text e
        ∙ rw plain (
            ap (λ l. numbered n texts ++ l)
              (bind_from-wanted root_path query (n + length texts) fs mapped))
        ∙ sym (numbered-append n texts (wanted root_path query fs))
        ∙ ap (numbered n) (
            sym (
              wanted-some root_path query f fs column text (used-some query f text column e m)
              ∙ rw plain))
  ]
]

abbrev marks_in : Option Bytes → ℕ
marks_in none = 0
marks_in (some s) = marks s

-- No column has a question mark in it.
maps_unmarked : (format : Format) (f : Field) → marks_in (maps format f) ≡ 0
unfolding maps track_maps artist_maps album_maps
maps_unmarked track_query trackid = refl
maps_unmarked track_query _ = refl
maps_unmarked artist_query trackid = refl
maps_unmarked artist_query _ = refl
maps_unmarked album_query trackid = refl
maps_unmarked album_query _ = refl

module _ (root_path : Bytes) (query : Query) (f : Field) (column filter : Bytes) where
  -- A clause has as many question marks as texts are bound for it.
  marks-clause :
      (id_field f ≡ true → IsIdList filter)
      → marks column ≡ 0
      → marks (clause f column filter)
        ≡ length (if id_field f then [] else field_texts root_path f filter)
  unfolding clause field_texts
  marks-clause safe unmarked = ground (
    arith,
    marks-IsIdList filter,
    marks-append column (codes " IN (" ++ (filter ++ codes ")")),
    marks-append filter (codes ")"),
    marks-append column (codes " LIKE ? AND " ++ (column ++ codes " NOT LIKE ?")),
    marks-append column (codes " NOT LIKE ?"),
    marks-append column (codes " LIKE ?"),
  )

-- The conditions of the fields that have a filter and a column, each with the texts for its question
-- marks, in the order of the fields.
abbrev pub conditions : Bytes → Query → List Field → List (Bytes × List Bytes)
conditions root_path query [] = []
conditions root_path query (f ∷ fs) = elim (used query f) [
  | none ↦ conditions root_path query fs
  | some (column, filter) ↦
      (clause f column filter, if id_field f then [] else field_texts root_path f filter)
      ∷ conditions root_path query fs
]

abbrev pub texts_of : List (Bytes × List Bytes) → List Bytes
texts_of [] = []
texts_of ((condition, texts) ∷ rest) = texts ++ texts_of rest

-- The conditions behind one another, with WHERE before the first.
abbrev pub joined : Bool → List (Bytes × List Bytes) → Bytes
joined join [] = []
joined join ((condition, texts) ∷ rest) =
    (if not join then codes "WHERE " else codes " AND ") ++ (condition ++ joined true rest)

module _ (root_path : Bytes) (query : Query) where
  wanted-conditions :
      (fs : List Field) → wanted root_path query fs ≡ texts_of (conditions root_path query fs)
  wanted-conditions [] = refl
  wanted-conditions (f ∷ fs) = elim (Option-cases (used query f)) [
    | inl e ↦ rw (e, wanted, conditions) (wanted-conditions fs)
    | inr ((column, filter), e) ↦
        rw (e, wanted, conditions)
          (ap (λ l. (if id_field f then [] else field_texts root_path f filter) ++ l)
            (wanted-conditions fs))
  ]

  add_filters-joined :
      (join : Bool) (fs : List Field)
      → add_filters query join fs ≡ joined join (conditions root_path query fs)
  unfolding add_filters
  add_filters-joined join [] = refl
  add_filters-joined join (f ∷ fs) = elim (Option-cases (used query f)) [
    | inl e ↦ rw (e, add_filters, conditions) (add_filters-joined join fs)
    | inr ((column, filter), e) ↦
        rw (e, add_filters, conditions)
          (ap
            (λ l.
              (if not join then codes "WHERE " else codes " AND ") ++ (clause f column filter ++ l))
            (add_filters-joined true fs))
  ]

  marks-conditions :
      IsSafe query
      → (fs : List Field) → All (λ c. marks c.0 ≡ length c.1) (conditions root_path query fs)
  marks-conditions safe [] = tt
  marks-conditions safe (f ∷ fs) = elim (Option-cases (query.filters f)) [
    | inl e ↦ rw (used-none query f e, conditions) (marks-conditions safe fs)
    | inr (text, e) ↦ elim (Option-cases (maps query.format f)) [
      | inl m ↦ rw (used_unmapped query f m, conditions) (marks-conditions safe fs)
      | inr (column, m) ↦
          let unmarked : marks column ≡ 0 = sym (ap marks_in m) ∙ maps_unmarked query.format f in
          rw (used-some query f text column e m, conditions)
            (
              marks-clause root_path query f column text (λ id. safe f text id e) unmarked,
              marks-conditions safe fs,
            )
    ]
  ]

-- In a query whose filtered fields all have a column, or are ids, and whose ids are lists of digits
-- and commas: the SQL has the conditions of the filtered fields in the order of the fields, each with
-- one question mark for each of the texts that belong to it, and just these texts are bound, in the
-- same order, to the numbers 1, 2, … So every text is bound to a question mark of its own field.
pub bind_filters-wanted :
    (root_path : Bytes) (query : Query)
    → IsSafe query
    → IsMapped query
    → (bind_filters root_path query
        ≡ numbered 1 (texts_of (conditions root_path query filter_fields)))
      × (build_filters query ≡ joined false (conditions root_path query filter_fields))
      × All (λ c. marks c.0 ≡ length c.1) (conditions root_path query filter_fields)
unfolding bind_filters build_filters
bind_filters-wanted root_path query safe mapped = (
  bind_from-wanted root_path query 1 filter_fields mapped
      ∙ ap (numbered 1) (wanted-conditions root_path query filter_fields),
  add_filters-joined root_path query false filter_fields,
  marks-conditions root_path query safe filter_fields,
)

abbrev pub title_and_artist : Bytes → Bytes → Query
title_and_artist title_text artist_text =
    query_filter (query_filter (query_new artist_query) title (some title_text)) artist
      (some artist_text)

-- A query for artists that filters by artist and, which artists do not have, by title: the one
-- question mark of the SQL is compared with artists.name, and is bound to the text for the title.
pub title_bound_to_artist :
    (root_path title_text artist_text : Bytes)
    → (count_sql (title_and_artist title_text artist_text)
        ≡ codes " SELECT COUNT(artists.rowid)  FROM artists  WHERE artists.name LIKE ?")
      × (bind_filters root_path (title_and_artist title_text artist_text)
          ≡ (1, percent ++ (title_text ++ percent)) ∷ (2, percent ++ (artist_text ++ percent)) ∷ [])
unfolding count_sql bind_filters build_filters add_filters bind_from query_filter filter_text
    artist_maps used clause field_texts maps id_field like_field count from
title_bound_to_artist root_path title_text artist_text = (refl, refl)
