-- ===== src/Http/Media.antt =====
-- src/protocol_http.c: the handlers for images, lyrics and the tree of directories, over the library's
-- database. `Wait` is what a client's callback is called with; the cache, the names and types of
-- images and the numbers of new tasks are an `Env`. The conditions are those of Http.
use musicd.Base.{
  ℕ, Bool, true, false, not, [], ◌∷◌, ◌++◌, Option, none, some, ◌==◌, ltb, if◌then◌else◌, Bytes,
  codes, drop, ℤ, pos, negsuc, is_zero, is_positive, decrement,
}
use mathlib.Core.List.{reverse}
use musicd.Memory.{Run, done, fault, out_of_bounds, ◌>>=◌}
use musicd.Json.{
  Json, json_init, json_object_begin, json_object_end, json_array_begin, json_array_end,
  json_define, json_int, json_string,
}
use musicd.Queries.{Query, query_new, track_query}
use musicd.Client.{Connection, client_write, client_wait_task}
use musicd.Http.{Request, args_int, decode_url, upto_nul, parse_query_filters, parse_query_sort}
use musicd.Http.Reply.{Env, crlf, version, http_send, http_reply, http_send_file}
use musicd.Library.Rows.{DirectoryRow}
use musicd.Library.Statements.{Db}
use musicd.Library.Files.{library_root_path}
use musicd.Library.Directories.{library_directory, iterate_directories_opaque}
use musicd.Library.Images.{
  LibraryImage, library_image_path, library_album_image, library_iterate_images_by_album,
}
use musicd.Library.Words.{Lyrics, library_lyrics}

-- The callbacks that wait for a task, with their data.
pub data Callback : Type 0 where
  send_image_of : Bytes → Callback
  lyrics_of_track : ℤ → Callback

pub record Store : Type 0 where
  -- a cached file that can be read and is not empty
  pub cache_get : Bytes → Option Bytes
  pub cache_exists : Bytes → Bool
  pub image_cache_name : ℤ → ℤ → Bytes
  pub image_mime_type : Bytes → Bytes
  -- the numbers that new tasks have
  pub image_task : ℤ → ℤ → ℕ
  pub lyrics_task : ℤ → ℕ

unfoldable pub validate_image_size : ℤ → ℤ
validate_image_size (pos n) =
    if n == 0 then pos 0 else if ltb n 16 then pos 16 else if ltb 512 n then pos 512 else pos n
validate_image_size (negsuc n) = pos 16

abbrev pub Handler : Type 0
Handler = Request → Db → Connection Callback → Run (ℤ × Db × Connection Callback)

module _ (env : Env) (decimal : ℤ → Bytes) (scan_int : Bytes → ℤ) (store : Store)
    (buf : Bytes) where
  -- `http_reply(http, status); return 0;`
  abbrev pub reply : Bytes → Db → Connection Callback → Run (ℤ × Db × Connection Callback)
  reply status db c = do c' ← http_reply env (some buf) status c; done (pos 0, db, c')

  -- `http_send_text(http, "200 OK", "text/json", json_result(&json)); return 0;`
  abbrev pub reply_json : Json → Db → Connection Callback → Run (ℤ × Db × Connection Callback)
  reply_json json db c = do
    c' ← http_send env (some buf) (some (codes "200 OK")) (some (codes "text/json")) json.buf c
    done (pos 0, db, c')

  unfoldable pub send_image : Bytes → Db → Connection Callback → Run (ℤ × Db × Connection Callback)
  send_image cache_name db c = elim (store.cache_get cache_name) [
    | none ↦ reply (codes "404 Not Found") db c
    | some content ↦ do
      c' ← http_send env (some buf) (some (codes "200 OK")) (some (codes "image/jpeg")) content c
      done (pos 0, db, c')
  ]

  unfoldable pub send_whole_image :
      ℤ → Db → Connection Callback → Run (ℤ × Db × Connection Callback)
  unfolding library_image_path
  send_whole_image image db c =
      let (path, db') = library_image_path image db in
      elim path [
        | none ↦ reply (codes "404 Not Found") db' c
        | some text ↦ do
          c' ← http_send_file env (some buf) text (store.image_mime_type text) c
          done (pos 0, db', c')
      ]

  unfoldable pub method_image : Handler
  unfolding validate_image_size send_whole_image send_image
  method_image http db c =
      let image = args_int scan_int http (codes "id") in
      let size = validate_image_size (args_int scan_int http (codes "size")) in
      elim (not (is_positive image)) [
        | true ↦ reply (codes "400 Bad Request") db c
        | false ↦ elim (is_zero size) [
          | true ↦ send_whole_image image db c
          | false ↦ elim (store.cache_exists (store.image_cache_name image size)) [
            | true ↦ send_image (store.image_cache_name image size) db c
            | false ↦ done (
              pos 0,
              db,
              client_wait_task (store.image_task image size)
                  (send_image_of (store.image_cache_name image size)) c,
            )
          ]
        ]
      ]

  unfoldable pub method_album_image : Handler
  unfolding library_album_image
  method_album_image http db c =
      let album = args_int scan_int http (codes "id") in
      let size = args_int scan_int http (codes "size") in
      let (image, db') = library_album_image album db in
      elim (not (is_positive image)) [
        | true ↦ reply (codes "404 Not Found") db' c
        | false ↦
            let location =
              codes "/image?id=" ++ (decimal image ++ (codes "&size=" ++ decimal size)) in
            done (
              pos 0,
              db',
              client_write
                  (codes "HTTP/1.1 302 Found"
                    ++ (crlf
                        ++ (codes "Server: musicd/"
                            ++ (version
                                ++ (crlf
                                    ++ (codes "Content-Length: 0"
                                        ++ (crlf
                                            ++ (codes "Location: "
                                                ++ (location ++ (crlf ++ crlf))))))))))
                  c,
            )
      ]

  unfoldable pub album_images_cb : LibraryImage → Json → Bool × Json
  album_images_cb image json = (true, json_int decimal json (pos image.id))

  unfoldable pub method_album_images : Handler
  unfolding library_iterate_images_by_album album_images_cb
  method_album_images http db c =
      let album = args_int scan_int http (codes "id") in
      elim (not (is_positive album)) [
        | true ↦ reply (codes "400 Bad Request") db c
        | false ↦
            let begun =
              json_array_begin (json_define (json_object_begin json_init) (codes "images")) in
            let (listed, db') = library_iterate_images_by_album album album_images_cb begun db in
            reply_json (json_object_end (json_array_end listed)) db' c
      ]

  unfoldable pub lyrics_json : Lyrics → Json
  lyrics_json lyrics =
      let text =
        json_string (json_define (json_object_begin json_init) (codes "lyrics")) lyrics.lyrics in
      let provided = json_string (json_define text (codes "provider")) lyrics.provider in
      json_object_end (json_string (json_define provided (codes "source")) lyrics.source)

  unfoldable pub send_lyrics :
      Lyrics → Db → Connection Callback → Run (ℤ × Db × Connection Callback)
  unfolding lyrics_json
  send_lyrics lyrics db c = reply_json (lyrics_json lyrics) db c

  unfoldable pub track_lyrics_cb : ℤ → Db → Connection Callback → Run (ℤ × Db × Connection Callback)
  unfolding library_lyrics send_lyrics
  track_lyrics_cb track db c =
      let (found, db') = library_lyrics track db in
      elim found.0 [
        | some lyrics ↦ send_lyrics lyrics db' c
        | none ↦ reply (codes "404 Not Found") db' c
      ]

  unfoldable pub method_track_lyrics : Handler
  unfolding send_lyrics
  method_track_lyrics http db c =
      let track = args_int scan_int http (codes "id") in
      let (found, db') = library_lyrics track db in
      elim (not (is_positive track)) [
        | true ↦ reply (codes "400 Bad Request") db c
        | false ↦ elim found.0 [
          | some lyrics ↦ send_lyrics lyrics db' c
          | none ↦ elim (is_zero found.1) [
            | true ↦
                done
                  (pos 0, db', client_wait_task (store.lyrics_task track) (lyrics_of_track track) c)
            | false ↦ reply (codes "404 Not Found") db' c
          ]
        ]
      ]

  -- The backward loop over a path: `before` is what stands before `name`, last byte first.
  unfoldable pub last_name : Bytes → Bytes → Bytes
  last_name [] name = name
  last_name (c ∷ before) name =
      let more = last_name before (c ∷ name) in if c == b'/' then name else more

  -- The loop begins at the last byte, which an empty path has not.
  unfoldable pub root_iterate_directories : DirectoryRow → Run Json → Bool × Run Json
  unfolding last_name
  root_iterate_directories directory json =
      elim (reverse directory.path) as (λ _. Bool × Run Json) [
        | [] ↦ (true, fault out_of_bounds)
        | c ∷ before ↦ (
          true,
          do
            j ← json
            done (
                json_object_end (
                  json_string (json_define (json_object_begin j) (codes "name"))
                    (some (last_name before (c ∷ []))))),
        )
      ]

  -- "%s" of a text that is NULL, as glibc prints it.
  abbrev pub printed : Option Bytes → Bytes
  printed none = codes "(null)"
  printed (some text) = text

  -- `path` is that of the request.
  unfoldable pub method_root : Bytes → Db → Connection Callback → Run (ℤ × Db × Connection Callback)
  unfolding library_root_path library_directory root_iterate_directories
  method_root path db c =
      let request_path = elim ((decode_url (drop 5 path)).0) as (λ _. Option Bytes) [
        | none ↦ none
        | some text ↦ some (upto_nul text)
      ] in
      let (root_path, db₁) = library_root_path db in
      let (directory, db₂) =
        library_directory (printed root_path ++ printed request_path) (negsuc 0) db₁ in
      elim (is_zero directory) [
        | true ↦ reply (codes "404 Not Found") db₂ c
        | false ↦
            let begun =
              json_array_begin (json_define (json_object_begin json_init) (codes "directories")) in
            let (listed, db₃) =
              iterate_directories_opaque directory root_iterate_directories (done begun) db₂ in
            do json ← listed; reply_json (json_object_end (json_array_end json)) db₃ c
      ]

  -- `query_index` asks the database.
  unfoldable pub method_track_index : (Query → ℤ → ℤ) → Handler
  method_track_index query_index http db c =
      let id = args_int scan_int http (codes "id") in
      elim (not (is_positive id)) [
        | true ↦ reply (codes "400 Bad Request") db c
        | false ↦ do
          filtered ← parse_query_filters http (query_new track_query)
          let index = query_index (parse_query_sort http filtered) id
          elim index [
            | negsuc n ↦ reply (codes "500 Internal Server Error") db c
            | pos n ↦
                reply_json
                  (json_object_end (
                    json_int decimal (json_define (json_object_begin json_init) (codes "index"))
                      (decrement (pos n))))
                  db c
          ]
      ]
