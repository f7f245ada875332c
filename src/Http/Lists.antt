-- ===== src/Http/Lists.antt =====
-- src/protocol_http.c: the handlers that list tracks, artists and albums. The database's answers are
-- arguments: the count for `query_count`, and the rows, none where `query_start` fails. `decimal` is
-- how printf writes a number, `scan_int` reads one.
use musicd.Base.{
  ◌≡◌, refl, ap, ◌∙◌, Bool-cases, inl, inr, true, false, List, [], ◌∷◌, Option, none, some, Bytes,
  codes, ℤ, pos, is_zero, is_negative, if◌then◌else◌,
}
use musicd.Memory.{Run, done, ◌>>=◌}
use musicd.Json.{
  Json, json_init, json_object_begin, json_object_end, json_array_begin, json_array_end,
  json_define, json_int, json_string,
}
use musicd.Json.Print.{
  Value, text, number, array, object, Items, no_items, item, no_members, member, emit, emit_items,
  print, emit-print,
}
use musicd.Queries.{Query, query_new, track_query, artist_query, album_query}
use musicd.Client.{Connection}
use musicd.Http.{Request, parse_query_filters, parse_query_bounds, parse_query_sort, parse_total}
use musicd.Http.Reply.{Env, http_send, http_reply}

-- What the handlers read of a `track_t`; a NULL text is none, and the
-- duration is the number that its double is converted to.
pub record TrackRow : Type 0 where
  pub id : ℤ
  pub track : ℤ
  pub title : Option Bytes
  pub artistid : ℤ
  pub artist : Option Bytes
  pub albumid : ℤ
  pub album : Option Bytes
  pub duration : ℤ

-- `query_artist_t`
pub record ArtistRow : Type 0 where
  pub artistid : ℤ
  pub artist : Option Bytes

-- `query_album_t`
pub record AlbumRow : Type 0 where
  pub albumid : ℤ
  pub album : Option Bytes
  pub image : ℤ
  pub tracks : ℤ

module _ (decimal : ℤ → Bytes) where
  abbrev pub define_int : Bytes → ℤ → Json → Json
  define_int name i json = json_int decimal (json_define json name) i

  abbrev pub define_string : Bytes → Option Bytes → Json → Json
  define_string name t json = json_string (json_define json name) t

  unfoldable pub write_track : TrackRow → Json → Json
  write_track row json = json_object_end (
      define_int (codes "duration") row.duration (
        define_string (codes "album") row.album (
          define_int (codes "albumid") row.albumid (
            define_string (codes "artist") row.artist (
              define_int (codes "artistid") row.artistid (
                define_string (codes "title") row.title (
                  define_int (codes "track") row.track
                    (define_int (codes "id") row.id (json_object_begin json)))))))))

  unfoldable pub write_artist : ArtistRow → Json → Json
  write_artist row json = json_object_end (
      define_string (codes "artist") row.artist
        (define_int (codes "id") row.artistid (json_object_begin json)))

  unfoldable pub write_album : AlbumRow → Json → Json
  write_album row json = json_object_end (
      define_int (codes "tracks") row.tracks (
        define_int (codes "image") row.image (
          define_string (codes "album") row.album
            (define_int (codes "id") row.albumid (json_object_begin json)))))

  -- The loop over the rows.
  unfoldable pub write_rows : {Row : Type 0} → (Row → Json → Json) → List Row → Json → Json
  write_rows write [] json = json
  write_rows write (row ∷ rows) json = write_rows write rows (write row json)

  -- The document of the three handlers, by the name of the list.
  unfoldable pub list_json : {Row : Type 0} → Bytes → (Row → Json → Json) → ℤ → List Row → Bytes
  unfolding write_rows
  list_json name write total rows =
      let begun = json_object_begin json_init in
      let totalled = if is_zero total then begun else define_int (codes "total") total begun in
      (json_object_end
        (json_array_end (write_rows write rows (json_array_begin (json_define totalled name))))).buf

  module _ {Wait : Type 0} (env : Env) (scan_int : Bytes → ℤ) (query_count : Query → ℤ)
      (buf : Bytes) where
    -- What the three handlers share.
    unfoldable pub send_list :
        {Row : Type 0}
        → Bytes
        → (Row → Json → Json)
        → (Query → Option (List Row))
        → Query
        → Request
        → Connection Wait
        → Run (ℤ × Connection Wait)
    unfolding list_json
    send_list name write query_rows query http c = do
      filtered ← parse_query_filters http query
      let total = parse_total query_count http filtered
      let asked = parse_query_sort http (parse_query_bounds scan_int http filtered)
      let failed = do
        c' ← http_reply env (some buf) (codes "500 Internal Server Error") c
        done (pos 0, c')
      elim (is_negative total) [
        | true ↦ failed
        | false ↦ elim (query_rows asked) [
          | none ↦ failed
          | some rows ↦ do
            c' ←
                http_send env (some buf) (some (codes "200 OK")) (some (codes "text/json"))
                  (list_json name write total rows) c
            done (pos 0, c')
        ]
      ]

    unfoldable pub method_tracks :
        (Query → Option (List TrackRow)) → Request → Connection Wait → Run (ℤ × Connection Wait)
    unfolding send_list write_track
    method_tracks query_rows http c =
        send_list (codes "tracks") write_track query_rows (query_new track_query) http c

    unfoldable pub method_artists :
        (Query → Option (List ArtistRow)) → Request → Connection Wait → Run (ℤ × Connection Wait)
    unfolding send_list write_artist
    method_artists query_rows http c =
        send_list (codes "artists") write_artist query_rows (query_new artist_query) http c

    unfoldable pub method_albums :
        (Query → Option (List AlbumRow)) → Request → Connection Wait → Run (ℤ × Connection Wait)
    unfolding send_list write_album
    method_albums query_rows http c =
        send_list (codes "albums") write_album query_rows (query_new album_query) http c

  -- The values that the rows are written as.
  abbrev pub track_value : TrackRow → Value
  track_value row = object (
      member (codes "id") (number row.id) (
        member (codes "track") (number row.track) (
          member (codes "title") (text row.title) (
            member (codes "artistid") (number row.artistid) (
              member (codes "artist") (text row.artist) (
                member (codes "albumid") (number row.albumid) (
                  member (codes "album") (text row.album)
                    (member (codes "duration") (number row.duration) no_members))))))))

  abbrev pub artist_value : ArtistRow → Value
  artist_value row = object (
      member (codes "id") (number row.artistid)
        (member (codes "artist") (text row.artist) no_members))

  abbrev pub album_value : AlbumRow → Value
  album_value row = object (
      member (codes "id") (number row.albumid) (
        member (codes "album") (text row.album) (
          member (codes "image") (number row.image)
            (member (codes "tracks") (number row.tracks) no_members))))

  abbrev pub items : {Row : Type 0} → (Row → Value) → List Row → Items
  items value [] = no_items
  items value (row ∷ rows) = item (value row) (items value rows)

  abbrev pub list_value : {Row : Type 0} → Bytes → (Row → Value) → ℤ → List Row → Value
  list_value name value total rows =
      let list = member name (array (items value rows)) no_members in
      object (if is_zero total then list else member (codes "total") (number total) list)

  write_rows-emit_items :
      {Row : Type 0} (write : Row → Json → Json) (value : Row → Value) (rows : List Row)
      (json : Json)
      → ((row : Row) (json : Json) → write row json ≡ emit decimal (value row) json)
      → write_rows write rows json ≡ emit_items decimal (items value rows) json
  unfolding write_rows emit
  write_rows-emit_items write value [] json h = refl
  write_rows-emit_items write value (row ∷ rows) json h =
      ap (write_rows write rows) (h row json)
      ∙ write_rows-emit_items write value rows (emit decimal (value row) json) h

  list_json-print_by :
      {Row : Type 0} (name : Bytes) (write : Row → Json → Json) (value : Row → Value) (total : ℤ)
      (rows : List Row)
      → ((row : Row) (json : Json) → write row json ≡ emit decimal (value row) json)
      → list_json name write total rows ≡ print decimal (list_value name value total rows)
  unfolding list_json emit
  list_json-print_by name write value total rows h =
      let list = member name (array (items value rows)) no_members in
      let closed : Json → Bytes = λ j. (json_object_end (json_array_end j)).buf in
      elim (Bool-cases (is_zero total)) [
        | inl nothing ↦
            rw (nothing, list_json)
              (ap closed (write_rows-emit_items write value rows _ h)
                ∙ ap (λ (j : Json). j.buf) (emit-print decimal (object list) json_init)
                ∙ unfold json_init in refl)
        | inr some_total ↦
            rw (some_total, list_json)
              (ap closed (write_rows-emit_items write value rows _ h)
                ∙ ap (λ (j : Json). j.buf)
                    (emit-print decimal (object (member (codes "total") (number total) list))
                      json_init)
                ∙ unfold json_init in refl)
      ]

  -- The documents that the three handlers build call by call are what `print` writes for one nested
  -- object, with commas and colons where JSON has them and texts as `escape` writes them: with the total
  -- if it is not 0, so that the total of a query without results is left out, and the rows in their
  -- order, each an object with all its fields; for any rows.
  pub list_json-print :
      (total : ℤ) (tracks : List TrackRow) (artists : List ArtistRow) (albums : List AlbumRow)
      → (list_json (codes "tracks") write_track total tracks
          ≡ print decimal (list_value (codes "tracks") track_value total tracks))
        × (list_json (codes "artists") write_artist total artists
            ≡ print decimal (list_value (codes "artists") artist_value total artists))
        × (list_json (codes "albums") write_album total albums
            ≡ print decimal (list_value (codes "albums") album_value total albums))
  unfolding write_track write_artist write_album emit
  list_json-print total tracks artists albums = (
    list_json-print_by (codes "tracks") write_track track_value total tracks (λ row json. refl),
    list_json-print_by (codes "artists") write_artist artist_value total artists (λ row json. refl),
    list_json-print_by (codes "albums") write_album album_value total albums (λ row json. refl),
  )
