-- ===== src/Http/ListTests.antt =====
-- Lists of rows, and an instance of the theorem.
use musicd.Base.{◌≡◌, refl, [], ◌∷◌, none, some, Bytes, codes, ℤ, pos}
use musicd.Json.{
  json_init, json_object_begin, json_object_end, json_array_begin, json_array_end, json_define,
  json_int, json_string, comma, escape, find_escape,
}
use musicd.Json.Print.{print}
use musicd.Http.Lists.{
  TrackRow, ArtistRow, AlbumRow, write_track, write_artist, write_album, write_rows, list_json,
  list_value, track_value, artist_value, album_value, list_json-print,
}

-- Every number is written as 7.
abbrev seven : ℤ → Bytes
seven i = codes "7"

abbrev track : TrackRow
track = record {
  id = pos 7;
  track = pos 7;
  title = some (codes "a\"b");
  artistid = pos 7;
  artist = none;
  albumid = pos 7;
  album = some (codes "c");
  duration = pos 7;
}

abbrev artist : ArtistRow
artist = record { artistid = pos 7; artist = some (codes "d") }

abbrev album : AlbumRow
album = record { albumid = pos 7; album = some (codes "e"); image = pos 7; tracks = pos 7 }

list_json-print_example :
    (list_json seven (codes "tracks") (write_track seven) (pos 7) (track ∷ track ∷ [])
      ≡ print seven
          (list_value seven (codes "tracks") (track_value seven) (pos 7) (track ∷ track ∷ [])))
    × (list_json seven (codes "artists") (write_artist seven) (pos 7) (artist ∷ [])
        ≡ print seven
            (list_value seven (codes "artists") (artist_value seven) (pos 7) (artist ∷ [])))
    × (list_json seven (codes "albums") (write_album seven) (pos 7) (album ∷ [])
        ≡ print seven (list_value seven (codes "albums") (album_value seven) (pos 7) (album ∷ [])))
list_json-print_example =
    list_json-print seven (pos 7) (track ∷ track ∷ []) (artist ∷ []) (album ∷ [])

two_artists :
    list_json seven (codes "artists") (write_artist seven) (pos 0) (artist ∷ artist ∷ [])
    ≡ codes "{\"artists\":[{\"id\":7,\"artist\":\"d\"},{\"id\":7,\"artist\":\"d\"}]}"
unfolding list_json write_artist write_rows json_init json_object_begin json_object_end
    json_array_begin json_array_end json_define json_int json_string comma escape find_escape
two_artists = refl
