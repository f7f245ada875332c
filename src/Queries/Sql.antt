-- ===== src/Queries/Sql.antt =====
-- The SQL that a query prepares, and the values that it binds to the question marks in it.
use musicd.Base.{
  ℕ, ◌+◌, Bool, true, false, not, ◌||◌, List, [], ◌∷◌, ◌++◌, Option, none, some, ltb, ◌==◌,
  if◌then◌else◌, Bytes, codes, ℤ, is_positive, length,
}
use musicd.Queries.{
  Field, directory, directoryprefix, id_field, number, filter_fields, Format, track_query,
  artist_query, album_query, maps, Query, percent,
}

-- What `build_filters` adds for one field that has both a filter and a column.
unfoldable pub clause : Field → Bytes → Bytes → Bytes
clause field column filter =
    if not (id_field field)
    then if number field == number directory
      then column ++ (codes " LIKE ? AND " ++ (column ++ codes " NOT LIKE ?"))
      else column ++ codes " LIKE ?"
    else column ++ (codes " IN (" ++ (filter ++ codes ")"))

-- `if (!query->filters[i] || !query->format->maps[i]) continue;`
unfoldable pub used : Query → Field → Option (Bytes × Bytes)
used query field = elim (query.filters field) [
  | none ↦ none
  | some filter ↦ elim (maps query.format field) [
    | none ↦ none
    | some column ↦ some (column, filter)
  ]
]

-- The loop of `build_filters`, with its flag `join`.
unfoldable pub add_filters : Query → Bool → List Field → Bytes
unfolding used clause
add_filters query join [] = []
add_filters query join (field ∷ fields) = elim (used query field) [
  | none ↦ add_filters query join fields
  | some (column, filter) ↦
      (if not join then codes "WHERE " else codes " AND ")
      ++ (clause field column filter ++ add_filters query true fields)
]

unfoldable pub build_filters : Query → Bytes
build_filters query = add_filters query false filter_fields

-- The texts that `bind_filters` binds for one field.
unfoldable pub field_texts : Bytes → Field → Bytes → List Bytes
field_texts root_path field filter =
    if number field == number directory
    then (root_path ++ (filter ++ percent))
      ∷ (root_path ++ (filter ++ (percent ++ codes "/%")))
      ∷ []
    else if number field == number directoryprefix
    then (root_path ++ (filter ++ percent)) ∷ []
    else filter ∷ []

abbrev pub numbered : ℕ → List Bytes → List (ℕ × Bytes)
numbered n [] = []
numbered n (text ∷ texts) = (n, text) ∷ numbered (n + 1) texts

-- The calls of `sqlite3_bind_text`: parameter number and text. `n` goes up with each.
unfoldable pub bind_from : Bytes → Query → ℕ → List Field → List (ℕ × Bytes)
unfolding field_texts
bind_from root_path query n [] = []
bind_from root_path query n (field ∷ fields) = elim (query.filters field) [
  | none ↦ bind_from root_path query n fields
  | some filter ↦
      let texts = field_texts root_path field filter in
      let bound = numbered n texts ++ bind_from root_path query (n + length texts) fields in
      let skipped = bind_from root_path query n fields in if id_field field then skipped else bound
]

unfoldable pub bind_filters : Bytes → Query → List (ℕ × Bytes)
bind_filters root_path query = bind_from root_path query 1 filter_fields

unfoldable pub body : Format → Bytes
body track_query =
    codes
      " SELECT tracks.rowid AS id, tracks.file AS file, tracks.cuefile AS cuefile, tracks.track AS track, tracks.title AS title, tracks.artistid AS artistid, tracks.artist AS artist, tracks.albumid AS albumid, tracks.album AS album, tracks.start AS start, tracks.duration AS duration "
body artist_query = codes " SELECT artists.rowid AS artistid, artists.name AS artist "
body album_query =
    codes
      " SELECT albums.rowid AS albumid, albums.name AS album, albums.imageid AS imageid, albums.tracks AS tracks "

unfoldable pub count : Format → Bytes
count track_query = codes " SELECT COUNT(tracks.rowid) "
count artist_query = codes " SELECT COUNT(artists.rowid) "
count album_query = codes " SELECT COUNT(albums.rowid) "

unfoldable pub index : Format → Bytes
index track_query = codes " SELECT tracks.rowid "
index artist_query = codes " SELECT artists.rowid "
index album_query = codes " SELECT albums.rowid "

unfoldable pub from : Format → Bytes
from track_query = codes " FROM tracks "
from artist_query = codes " FROM artists "
from album_query = codes " FROM albums "

abbrev pub join : Bytes
join = codes " "

abbrev pub order_by : Query → Bytes
order_by query = if ltb 0 (length query.order) then codes " ORDER BY " ++ query.order else []

-- The statements of `query_count`, `query_index` and `query_start`.
unfoldable pub count_sql : Query → Bytes
count_sql query = count query.format ++ (from query.format ++ (join ++ build_filters query))

unfoldable pub index_sql : Query → Bytes
index_sql query =
    index query.format ++ (from query.format ++ (join ++ (build_filters query ++ order_by query)))

unfoldable pub start_sql : (ℤ → Bytes) → Query → Bytes
start_sql decimal query =
    let bounds =
      if is_positive query.limit || is_positive query.offset
      then codes " LIMIT " ++ (decimal query.limit ++ (codes " OFFSET " ++ decimal query.offset))
      else [] in
    body query.format
    ++ (from query.format ++ (join ++ (build_filters query ++ (order_by query ++ bounds))))
