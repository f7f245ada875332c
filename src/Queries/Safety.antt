-- ===== src/Queries/Safety.antt =====
-- src/query.c: what of a client's text reaches the SQL of a query.
use mathlib.Core.Option
use mathlib.Core.Path.{subst, ap₂}
use musicd.Base.{
  ℕ, ◌≡◌, refl, sym, ap, ◌∙◌, Bool, true, false, not, List, [], ◌∷◌, ◌++◌, Option, none, some, ◌⊎◌,
  inl, inr, ◌==◌, ◌≤◌, arith, Bytes, Bool-cases, Option-cases, if◌then◌else◌, All, is_some, codes,
  get_elem?, ==_iff,
}
use musicd.Queries.Sql.{clause, used, add_filters, build_filters}
use musicd.Queries.Used.{used-none, used-some, used_unmapped}
use musicd.Queries.{
  Field, none_field, trackid, artistid, albumid, title, artist, album, track, duration, tracks,
  directory, directoryprefix, all, id_field, number, filter_fields, Format, maps, Query, query_new,
  id_byte, id_list, filter_text, query_filter,
}

-- Commas and decimal digits only.
abbrev pub IsIdList : Bytes → Type 0
IsIdList = All (λ c. (c ≡ 44) ⊎ ((48 ≤ c) × (c ≤ 57)))

id_byte-digit : (c : ℕ) → id_byte c ≡ true → (c ≡ 44) ⊎ ((48 ≤ c) × (c ≤ 57))
id_byte-digit c h = ground arith

pub id_list-IsIdList : (s : Bytes) → IsIdList (id_list s)
unfolding id_list
id_list-IsIdList [] = tt
id_list-IsIdList (c ∷ s) = elim (Bool-cases (id_byte c)) [
  | inl ok ↦ rw ok (id_byte-digit c ok, id_list-IsIdList s)
  | inr bad ↦ rw bad (id_list-IsIdList s)
]

-- Every filter on an id field is a list of digits and commas.
abbrev pub IsSafe : Query → Type 0
IsSafe query =
    (f : Field) (text : Bytes) → id_field f ≡ true → query.filters f ≡ some text → IsIdList text

pub query_new-IsSafe : (format : Format) → IsSafe (query_new format)
query_new-IsSafe format f text id h = absurd (ground arith)

field_at : ℕ → Option Field
field_at n = get_elem? (none_field ∷ filter_fields) n

field_at-number : (f : Field) → field_at (number f) ≡ some f
unfolding field_at
field_at-number none_field = refl
field_at-number trackid = refl
field_at-number artistid = refl
field_at-number albumid = refl
field_at-number title = refl
field_at-number artist = refl
field_at-number album = refl
field_at-number track = refl
field_at-number duration = refl
field_at-number tracks = refl
field_at-number directory = refl
field_at-number directoryprefix = refl
field_at-number all = refl

number-injective : (f g : Field) → number f ≡ number g → f ≡ g
number-injective f g h =
    Option.some-injective f g (sym (field_at-number f) ∙ ap field_at h ∙ field_at-number g)

filter_text-IsIdList :
    (field : Field) (filter : Bytes) → id_field field ≡ true → IsIdList (filter_text field filter)
unfolding filter_text
filter_text-IsIdList field filter h = rw h (id_list-IsIdList filter)

-- Whatever text a client sends, filters set by `query_filter` keep this: each filter on an id field is
-- made of digits and commas only.
pub query_filter-IsSafe :
    (query : Query) (field : Field) (filter : Option Bytes)
    → IsSafe query
    → IsSafe (query_filter query field filter)
unfolding query_filter
query_filter-IsSafe query field none safe f text id h = ground (arith, safe f text id)
query_filter-IsSafe query field (some filter) safe f text id h =
    elim (Bool-cases (number f == number field)) [
      | inl same ↦
          let e : f ≡ field = number-injective f field ((==_iff _ _).0 same) in
          let t : filter_text field filter ≡ text = Option.some-injective _ _ (rw same at h) in
          subst IsIdList t (filter_text-IsIdList field filter (rw e at id))
      | inr other ↦ safe f text id (rw other at h)
    ]

-- The queries filter the same fields, and ids by the same lists.
pub record SameFilters (q r : Query) : Type 0 where
  pub formats : q.format ≡ r.format
  pub fields : (f : Field) → is_some (q.filters f) ≡ is_some (r.filters f)
  pub ids : (f : Field) → id_field f ≡ true → q.filters f ≡ r.filters f

is_some-none : (o : Option Bytes) → false ≡ is_some o → o ≡ none
is_some-none o h = ground arith

is_some-some : (o : Option Bytes) → true ≡ is_some o → (a : Bytes) × (o ≡ some a)
is_some-some none h = absurd (ground arith)
is_some-some (some a) h = (a, refl)

clause-irrelevant :
    (f : Field) (column a b : Bytes) → id_field f ≡ false → clause f column a ≡ clause f column b
unfolding clause
clause-irrelevant f column a b h = rw h

-- What the two queries add for a field: nothing, or the same text.
SameUse : Query → Query → Field → Type 0
SameUse q r f =
    ((used q f ≡ none) × (used r f ≡ none))
    ⊎ ((column : Bytes) × (a : Bytes) × (b : Bytes) × (used q f ≡ some (column, a))
        × (used r f ≡ some (column, b))
        × (clause f column a ≡ clause f column b))

used-same : (q r : Query) (f : Field) → SameFilters q r → SameUse q r f
unfolding SameUse
used-same q r f s = elim (Option-cases (q.filters f)) [
  | inl e ↦ inl (
    used-none q f e,
    used-none r f (is_some-none (r.filters f) (sym (ap is_some e) ∙ s.fields f)),
  )
  | inr (a, e) ↦ elim (Option-cases (maps q.format f)) [
    | inl m ↦ inl (used_unmapped q f m, used_unmapped r f (ap (λ t. maps t f) (sym s.formats) ∙ m))
    | inr (column, m) ↦
        let (b, e') = is_some-some (r.filters f) (sym (ap is_some e) ∙ s.fields f) in
        inr (
          column,
          a,
          b,
          used-some q f a column e m,
          used-some r f b column e' (ap (λ t. maps t f) (sym s.formats) ∙ m),
          elim (Bool-cases (id_field f)) [
            | inl id ↦ ap (clause f column) (Option.some-injective a b (sym e ∙ s.ids f id ∙ e'))
            | inr text ↦ clause-irrelevant f column a b text
          ],
        )
  ]
]

add_filters-same :
    (q r : Query) (join : Bool) (fs : List Field)
    → SameFilters q r
    → add_filters q join fs ≡ add_filters r join fs
unfolding add_filters SameUse
add_filters-same q r join [] s = refl
add_filters-same q r join (f ∷ fs) s = elim (used-same q r f s) [
  | inl (e, e') ↦ rw (e, add_filters) (rw (e', add_filters) (add_filters-same q r join fs s))
  | inr (column, a, b, e, e', same) ↦
      rw (e, add_filters)
        (rw (e', add_filters)
          (ap₂ (λ t u. (if not join then codes "WHERE " else codes " AND ") ++ (t ++ u)) same
            (add_filters-same q r true fs s)))
]

-- Two queries of one kind that filter the same fields, and ids by the same lists, have the same
-- conditions in their SQL: the text that a client gives for any other field never gets into it.
pub build_filters-same : (q r : Query) → SameFilters q r → build_filters q ≡ build_filters r
unfolding build_filters
build_filters-same q r s = add_filters-same q r false filter_fields s
