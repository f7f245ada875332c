-- ===== src/Queries/Fields.antt =====
-- Names of fields and the fields they name.
use musicd.Base.{
  ◌≡◌, refl, List, [], ◌∷◌, some, ◌⊎◌, inl, inr, arith, Bytes, codes, equal, equal_iff, Bool-cases,
  Option-cases,
}
use musicd.Queries.{
  Field, none_field, trackid, artistid, albumid, title, artist, album, track, duration, tracks,
  directory, directoryprefix, all, name_of, named_fields, find_field, query_field_from_string,
}

-- Every field is found by its name.
pub query_field_from_string-name_of : (f : Field) → query_field_from_string (name_of f) ≡ f
unfolding query_field_from_string find_field name_of equal
query_field_from_string-name_of none_field = refl
query_field_from_string-name_of trackid = refl
query_field_from_string-name_of artistid = refl
query_field_from_string-name_of albumid = refl
query_field_from_string-name_of title = refl
query_field_from_string-name_of artist = refl
query_field_from_string-name_of album = refl
query_field_from_string-name_of track = refl
query_field_from_string-name_of duration = refl
query_field_from_string-name_of tracks = refl
query_field_from_string-name_of directory = refl
query_field_from_string-name_of directoryprefix = refl
query_field_from_string-name_of all = refl

find_field-name_of :
    (s : Bytes) (fs : List Field) {f : Field} → find_field s fs ≡ some f → s ≡ name_of f
unfolding find_field
find_field-name_of s [] h = cc
find_field-name_of s (g ∷ fs) {f} h = elim (Bool-cases (equal s (name_of g))) [
  | inl e ↦ ground (arith, equal_iff s (name_of g))
  | inr e ↦ find_field-name_of s fs (rw e at h)
]

-- What is found is what the text names; only `all` has a second name.
pub name_of-query_field_from_string :
    (s : Bytes)
    → (query_field_from_string s ≡ none_field)
      ⊎ (s ≡ name_of (query_field_from_string s))
      ⊎ ((query_field_from_string s ≡ all) × (s ≡ codes "search"))
unfolding query_field_from_string
name_of-query_field_from_string s = elim (Option-cases (find_field s named_fields)) [
  | inl e ↦
      rw (e, query_field_from_string)
        (unfold name_of in ground (arith, equal_iff s (codes "all"), equal_iff s (codes "search")))
  | inr (f, e) ↦ rw (e, query_field_from_string) (inr (inl (find_field-name_of s named_fields e)))
]
