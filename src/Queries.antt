-- ===== src/Queries.antt =====
-- src/query.c: fields, filters and sorting of a query, and the SQL text made from them. The loops
-- over `i` from 1 to QUERY_FIELD_ALL are recursions on the list of fields in that order.
-- `decimal` is how printf writes a 64 bit number, and `root_path` is what the library answers.
pub mod Fields
pub mod Sort
pub mod Sql
pub mod Used
pub mod Binding
pub mod Index
pub mod Safety
mod Tests
use musicd.Base.{
  ℕ, zero, suc, ◌+◌, Bool, true, false, not, ◌&&◌, ◌||◌, List, [], ◌∷◌, ◌++◌, Option, none, some,
  ltb, leb, ◌==◌, if◌then◌else◌, Bytes, codes, equal, is_some, ℤ, pos, negsuc, is_positive, length,
}

pub data Field : Type 0 where
  none_field trackid artistid albumid title artist album : Field
  track duration tracks directory directoryprefix all : Field

abbrev pub number : Field → ℕ
number none_field = 0
number trackid = 1
number artistid = 2
number albumid = 3
number title = 4
number artist = 5
number album = 6
number track = 7
number duration = 8
number tracks = 9
number directory = 10
number directoryprefix = 11
number all = 12

-- `field_names`, and for `all` the first of its two names.
unfoldable pub name_of : Field → Bytes
name_of none_field = []
name_of trackid = codes "trackid"
name_of artistid = codes "artistid"
name_of albumid = codes "albumid"
name_of title = codes "title"
name_of artist = codes "artist"
name_of album = codes "album"
name_of track = codes "track"
name_of duration = codes "duration"
name_of tracks = codes "tracks"
name_of directory = codes "directory"
name_of directoryprefix = codes "directoryprefix"
name_of all = codes "all"

pub id_field : Field → Bool
id_field trackid = true
id_field artistid = true
id_field albumid = true
id_field _ = false

pub like_field : Field → Bool
like_field title = true
like_field artist = true
like_field album = true
like_field all = true
like_field _ = false

abbrev pub named_fields : List Field
named_fields =
    trackid ∷ artistid ∷ albumid ∷ title ∷ artist ∷ album ∷ track ∷ duration ∷ tracks ∷ directory
    ∷ directoryprefix ∷ []

-- The fields from 1 to QUERY_FIELD_ALL.
abbrev pub filter_fields : List Field
filter_fields = named_fields ++ (all ∷ [])

pub find_field : Bytes → List Field → Option Field
find_field string [] = none
find_field string (f ∷ fs) = if equal string (name_of f) then some f else find_field string fs

pub query_field_from_string : Bytes → Field
query_field_from_string string = elim (find_field string named_fields) [
  | some f ↦ f
  | none ↦ if equal string (codes "all") || equal string (codes "search") then all else none_field
]

pub data Format : Type 0 where
  track_query artist_query album_query : Format

pub track_maps : Field → Option Bytes
track_maps trackid = some (codes "tracks.rowid")
track_maps artistid = some (codes "tracks.artistid")
track_maps albumid = some (codes "tracks.albumid")
track_maps title = some (codes "tracks.title")
track_maps artist = some (codes "tracks.artist")
track_maps album = some (codes "tracks.album")
track_maps track = some (codes "tracks.track")
track_maps duration = some (codes "tracks.duration")
track_maps directory = some (codes "tracks.file")
track_maps directoryprefix = some (codes "tracks.file")
track_maps all = some (
    codes
      "(COALESCE(tracks.title, '') || COALESCE(tracks.artist, '') || COALESCE(tracks.album, ''))")
track_maps _ = none

pub artist_maps : Field → Option Bytes
artist_maps artistid = some (codes "artists.rowid")
artist_maps artist = some (codes "artists.name")
artist_maps all = some (codes "(COALESCE(artists.name, ''))")
artist_maps _ = none

pub album_maps : Field → Option Bytes
album_maps albumid = some (codes "albums.rowid")
album_maps album = some (codes "albums.name")
album_maps tracks = some (codes "albums.tracks")
album_maps all = some (codes "(COALESCE(albums.name, ''))")
album_maps _ = none

pub maps : Format → Field → Option Bytes
maps track_query = track_maps
maps artist_query = artist_maps
maps album_query = album_maps

pub record Query : Type 0 where
  pub format : Format
  pub filters : Field → Option Bytes
  pub limit : ℤ
  pub offset : ℤ
  pub order : Bytes

-- `query_tracks_new`, `query_artists_new` and `query_albums_new`.
abbrev pub query_new : Format → Query
query_new format = record {
  format = format;
  filters = λ f. none;
  limit = negsuc 0;
  offset = pos 0;
  order = [];
}

abbrev pub set_filter : (Field → Option Bytes) → Field → Option Bytes → Field → Option Bytes
set_filter filters field text f = if number f == number field then text else filters f

-- A byte that may stand in a list of ids.
abbrev pub id_byte : ℕ → Bool
id_byte c = c == b',' || (leb b'0' c && leb c b'9')

pub id_list : Bytes → Bytes
id_list [] = []
id_list (c ∷ filter) = let rest = id_list filter in if id_byte c then c ∷ rest else rest

abbrev pub percent : Bytes
percent = b'%' ∷ []

pub filter_text : Field → Bytes → Bytes
unfolding id_list
filter_text field filter =
    if not (id_field field)
    then if like_field field then percent ++ (filter ++ percent) else filter
    else id_list filter

pub query_filter : Query → Field → Option Bytes → Query
query_filter query field none = record query { filters = set_filter query.filters field none }
query_filter query field (some filter) = record query {
  filters = set_filter query.filters field (some (filter_text field filter));
}

pub query_limit : Query → ℤ → Query
query_limit query limit = record query { limit = limit }

pub query_offset : Query → ℤ → Query
query_offset query offset = record query { offset = offset }

pub query_sort : Query → Field → Bool → Query
query_sort query field descending = elim (maps query.format field) [
  | none ↦ query
  | some column ↦
      let separator = if ltb 0 (length query.order) then codes ", " else [] in
      record query {
        order =
            query.order
            ++ (separator
                ++ (column
                    ++ (codes " COLLATE NOCASE "
                        ++ (if descending then codes "DESC" else codes "ASC"))));
      }
]

-- The text before the first comma, and from it on.
pub upto_comma : Bytes → Bytes × Bytes
upto_comma [] = ([], [])
upto_comma (c ∷ sort) =
    let (name, end) = upto_comma sort in if c == b',' then ([], c ∷ sort) else (c ∷ name, end)

abbrev pub skip : ℕ → Bytes → Bytes
skip c [] = []
skip c (x ∷ s) = if x == c then s else x ∷ s

abbrev pub minus : Bytes → Bool
minus [] = false
minus (c ∷ s) = c == b'-'

-- The query after the rules read, and whether the result is 0. A rule takes at least one byte, so
-- one more round than bytes is enough.
pub sort_rules : ℕ → Query → Bytes → Query × Bool
sort_rules zero query sort = (query, false)
sort_rules (suc fuel) query [] = (query, true)
sort_rules (suc fuel) query (c ∷ sort) =
    let descending = minus (c ∷ sort) in
    let (name, end) = upto_comma (skip b'-' (c ∷ sort)) in
    let field = query_field_from_string name in
    let rest = sort_rules fuel (query_sort query field descending) (skip b',' end) in
    if number field == 0 then (query, false) else rest

pub query_sort_from_string : Query → Bytes → Query × Bool
query_sort_from_string query sort = sort_rules (length sort + 1) query sort
