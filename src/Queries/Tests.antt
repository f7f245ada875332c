-- ===== src/Queries/Tests.antt =====
-- Queries built by hand, and instances of the theorems on them.
use mathlib.Core.List.{foldl}
use musicd.Base.{
  All, ◌≡◌, refl, true, false, List, [], ◌∷◌, some, ◌⊎◌, codes, is_some, pos, length, equal,
}
use musicd.Queries.Binding.{
  bind_filters-wanted, title_bound_to_artist, title_and_artist, marks, conditions, texts_of, joined,
  IsMapped,
}
use musicd.Queries.Fields.{query_field_from_string-name_of, name_of-query_field_from_string}
use musicd.Queries.Index.{Indexed, Answers, query_index, scan_rows, query_index-Indexed}
use musicd.Queries.Safety.{
  IsSafe, query_new-IsSafe, query_filter-IsSafe, SameFilters, build_filters-same,
}
use musicd.Queries.Sort.{Rule, print_rules, apply_rule, query_sort_from_string-print_rules}
use musicd.Queries.Sql.{
  count_sql, build_filters, bind_filters, numbered, used, add_filters, bind_from, clause,
  field_texts,
}
use musicd.Queries.{
  Field, none_field, albumid, title, artist, album, tracks, all, id_field, like_field, name_of,
  filter_fields, track_query, track_maps, artist_maps, maps, Query, query_new, query_filter,
  filter_text, query_sort, query_sort_from_string, query_field_from_string, find_field, sort_rules,
  upto_comma, id_list,
}

program : Unit {0}
unfolding query_filter filter_text id_list query_sort query_sort_from_string sort_rules upto_comma
    query_field_from_string find_field name_of id_field like_field maps track_maps artist_maps equal
program = tt

-- albumid=1,2 with a quote that is dropped, and artist=x
abbrev tracks_of : Query
tracks_of =
    query_filter (query_filter (query_new track_query) albumid (some (codes "1,'2"))) artist
      (some (codes "x"))

filters_set :
    (tracks_of.filters albumid ≡ some (codes "1,2"))
    × (tracks_of.filters artist ≡ some (codes "%x%"))
unfolding program
filters_set = (refl, refl)

where_clause :
    build_filters tracks_of ≡ codes "WHERE tracks.albumid IN (1,2) AND tracks.artist LIKE ?"
unfolding program build_filters add_filters used clause
where_clause = refl

bound : bind_filters (codes "/music") tracks_of ≡ (1, codes "%x%") ∷ []
unfolding program bind_filters bind_from field_texts
bound = refl

tracks_of-IsSafe : IsSafe tracks_of
tracks_of-IsSafe =
    query_filter-IsSafe (query_filter (query_new track_query) albumid (some (codes "1,'2"))) artist
      (some (codes "x"))
      (query_filter-IsSafe (query_new track_query) albumid (some (codes "1,'2"))
        (query_new-IsSafe track_query))

query_filter-IsSafe_example :
    IsSafe (query_filter (query_new track_query) albumid (some (codes "1,'2")))
query_filter-IsSafe_example =
    query_filter-IsSafe (query_new track_query) albumid (some (codes "1,'2"))
      (query_new-IsSafe track_query)

tracks_of-IsMapped : IsMapped tracks_of
unfolding program
tracks_of-IsMapped none_field plain filtered = cc
tracks_of-IsMapped tracks plain filtered = cc
tracks_of-IsMapped artist plain filtered = refl
tracks_of-IsMapped _ plain filtered = refl

bind_filters-wanted_example :
    (bind_filters (codes "/music") tracks_of
      ≡ numbered 1 (texts_of (conditions (codes "/music") tracks_of filter_fields)))
    × (build_filters tracks_of ≡ joined false (conditions (codes "/music") tracks_of filter_fields))
    × All (λ c. marks c.0 ≡ length c.1) (conditions (codes "/music") tracks_of filter_fields)
bind_filters-wanted_example =
    bind_filters-wanted (codes "/music") tracks_of tracks_of-IsSafe tracks_of-IsMapped

title_bound_to_artist_example :
    (count_sql (title_and_artist (codes "t") (codes "a"))
      ≡ codes " SELECT COUNT(artists.rowid)  FROM artists  WHERE artists.name LIKE ?")
    × (bind_filters [] (title_and_artist (codes "t") (codes "a"))
        ≡ (1, codes "%t%") ∷ (2, codes "%a%") ∷ [])
title_bound_to_artist_example = title_bound_to_artist [] (codes "t") (codes "a")

-- The same filters with another text for the artist.
abbrev tracks_by_other : Query
tracks_by_other =
    query_filter (query_filter (query_new track_query) albumid (some (codes "1,2"))) artist
      (some (codes "' OR 1=1"))

same_filters : SameFilters tracks_of tracks_by_other
unfolding program
same_filters = record { formats = refl; fields = fields; ids = ids }
  where
    fields : (f : Field) → is_some (tracks_of.filters f) ≡ is_some (tracks_by_other.filters f)
    fields none_field = refl
    fields _ = refl

    ids : (f : Field) → id_field f ≡ true → tracks_of.filters f ≡ tracks_by_other.filters f
    ids artist h = cc
    ids _ h = refl

build_filters-same_example : build_filters tracks_of ≡ build_filters tracks_by_other
build_filters-same_example = build_filters-same tracks_of tracks_by_other same_filters

-- The example of the API: album, then artist descending, then title.
abbrev rules : List Rule
rules =
    record { field = album; descending = false }
    ∷ record { field = artist; descending = true }
    ∷ record { field = title; descending = false }
    ∷ []

sorted_order :
    (foldl apply_rule (query_new track_query) rules).order
    ≡ codes
        "tracks.album COLLATE NOCASE ASC, tracks.artist COLLATE NOCASE DESC, tracks.title COLLATE NOCASE ASC"
unfolding program
sorted_order = refl

query_sort_from_string-print_rules_example :
    query_sort_from_string (query_new track_query) (print_rules rules)
    ≡ (foldl apply_rule (query_new track_query) rules, true)
query_sort_from_string-print_rules_example =
    query_sort_from_string-print_rules (query_new track_query) rules (refl, (refl, (refl, tt)))

query_field_from_string-name_of_example : query_field_from_string (name_of all) ≡ all
query_field_from_string-name_of_example = query_field_from_string-name_of all

-- The API document has `id` for `trackid`; the source does not.
id_is_no_field : query_field_from_string (codes "id") ≡ none_field
unfolding program
id_is_no_field = refl

name_of-query_field_from_string_example :
    (query_field_from_string (codes "id") ≡ none_field)
    ⊎ (codes "id" ≡ name_of (query_field_from_string (codes "id")))
    ⊎ ((query_field_from_string (codes "id") ≡ all) × (codes "id" ≡ codes "search"))
name_of-query_field_from_string_example = name_of-query_field_from_string (codes "id")

abbrev answers : Answers
answers = record { prepared = true; rows = 5 ∷ 7 ∷ 9 ∷ 7 ∷ []; finished = true }

query_index-Indexed_example : Indexed answers 7 (query_index answers 7)
query_index-Indexed_example = query_index-Indexed answers 7

seven_is_second : query_index answers 7 ≡ pos 2
unfolding query_index scan_rows
seven_is_second = refl
