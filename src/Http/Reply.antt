-- ===== src/Http/Reply.antt =====
-- src/protocol_http.c: headers and replies, and documents below the root. `printed` is what vsnprintf
-- makes of a text taken as a format without arguments; `decimal` is how it writes a number. `files`
-- gives the content of a file that can be opened; an empty file counts as none.
use musicd.Base.{
  ℕ, Bool, true, false, not, ◌||◌, List, [], ◌∷◌, ◌++◌, Option, none, some, ◌==◌, if◌then◌else◌,
  Bytes, codes, equal, length, drop, ℤ, pos,
}
use musicd.Memory.{Run, done, fault, out_of_bounds, ◌>>=◌}
use musicd.Strings.Search.{strcasestr, strchrnull, strextract, strstr}
use musicd.Client.{Connection, client_write}

pub record Env : Type 0 where
  pub decimal : ℕ → Bytes
  pub printed : Bytes → Bytes
  pub enable_cors : Bool
  -- `config_to_path("http-root")`, if it is set
  pub http_root : Option Bytes
  pub files : Bytes → Option Bytes

-- MUSICD_VERSION_STRING in src/musicd.h.
abbrev pub version : Bytes
version = codes "0.3.0-dev"

-- The end of a line in HTTP.
abbrev pub crlf : Bytes
crlf = 13 ∷ 10 ∷ []

-- The lines for cross-origin sharing. `request` is `http->request`: NULL until the first whole request
-- of the client, and no longer valid after one; the search in it is then a fault.
unfoldable pub cors_headers : Env → Option Bytes → Run Bytes
cors_headers env request = if not env.enable_cors then done [] else elim request [
  | none ↦ fault out_of_bounds
  | some text ↦ elim (strcasestr text (crlf ++ codes "Origin: ")) [
    | none ↦ done []
    | some start ↦
        let origin = strextract (drop 2 start) (strchrnull (drop 1 start) 13) in
        done (
          codes "Access-Control-Allow-"
          ++ (env.printed origin
              ++ (crlf ++ (codes "Access-Control-Allow-Credentials: true" ++ crlf))))
  ]
]

unfoldable pub status_line : Option Bytes → Bytes
status_line status =
    codes "HTTP/1.1 "
    ++ (elim status as (λ s. Bytes) [ none ↦ codes "200 OK" | some s ↦ s ] ++ crlf)

-- A length of `none` is negative: it is not sent.
unfoldable pub http_begin_headers :
    {Wait : Type 0}
    → Env
    → Option Bytes
    → Option Bytes
    → Option Bytes
    → Option ℕ
    → Connection Wait
    → Run (Connection Wait)
unfolding cors_headers status_line
http_begin_headers env request status content_type content_length c = do
  cors ← cors_headers env request
  let server = codes "Server: musicd/" ++ (version ++ crlf)
  let sized = elim content_length as (λ l. Bytes) [
    | none ↦ []
    | some n ↦ codes "Content-Length: " ++ (env.decimal n ++ crlf)
  ]
  let typed = elim content_type as (λ t. Bytes) [
    | none ↦ []
    | some t ↦ codes "Content-Type: " ++ (t ++ (codes "; charset=utf-8" ++ crlf))
  ]
  done (client_write (status_line status ++ (server ++ (sized ++ (typed ++ cors)))) c)

unfoldable pub http_send_headers :
    {Wait : Type 0}
    → Env
    → Option Bytes
    → Option Bytes
    → Option Bytes
    → Option ℕ
    → Connection Wait
    → Run (Connection Wait)
http_send_headers env request status content_type content_length c = do
  c' ← http_begin_headers env request status content_type content_length c
  done (client_write crlf c')

unfoldable pub http_send :
    {Wait : Type 0}
    → Env
    → Option Bytes
    → Option Bytes
    → Option Bytes
    → Bytes
    → Connection Wait
    → Run (Connection Wait)
http_send env request status content_type content c = do
  let kind = elim content_type as (λ t. Bytes) [ none ↦ codes "text/html" | some t ↦ t ]
  c' ← http_send_headers env request status (some kind) (some (length content)) c
  done (client_write content c')

unfoldable pub http_reply :
    {Wait : Type 0} → Env → Option Bytes → Bytes → Connection Wait → Run (Connection Wait)
http_reply env request status c =
    http_send env request (some status) (some (codes "text/plain")) status c

-- Whether the file was sent.
unfoldable pub http_try_send_file :
    {Wait : Type 0}
    → Env
    → Option Bytes
    → Bytes
    → Bytes
    → Connection Wait
    → Run (Bool × Connection Wait)
http_try_send_file env request path content_type c = elim (env.files path) [
  | none ↦ done (false, c)
  | some [] ↦ done (false, c)
  | some (b ∷ content) ↦ do
    c' ← http_send env request none (some content_type) (b ∷ content) c
    done (true, c')
]

unfoldable pub http_send_file :
    {Wait : Type 0} → Env → Option Bytes → Bytes → Bytes → Connection Wait → Run (Connection Wait)
http_send_file env request path content_type c = do
  (sent, c') ← http_try_send_file env request path content_type c
  if not sent then http_reply env request (codes "404 Not Found") c' else done c'

abbrev pub mime_types : List (Bytes × Bytes)
mime_types =
    (codes "html", codes "text/html")
    ∷ (codes "css", codes "text/css")
    ∷ (codes "js", codes "application/javascript")
    ∷ (codes "jpg", codes "image/jpeg")
    ∷ (codes "png", codes "image/png")
    ∷ []

unfoldable pub find_mime : Bytes → List (Bytes × Bytes) → Bytes
find_mime ext [] = codes "application/octet-stream"
find_mime ext ((extension, mime) ∷ rest) = if equal extension ext then mime else find_mime ext rest

-- What stands behind the last `.` or `/` of a path, or all of it.
unfoldable pub extension_of : Bytes → Bytes → Bytes
extension_of ext [] = ext
extension_of ext (c ∷ path) = extension_of (if c == b'.' || c == b'/' then path else ext) path

unfoldable pub mime_type_from_path : Bytes → Bytes
unfolding extension_of find_mime
mime_type_from_path path = find_mime (extension_of path path) mime_types

-- The result is `pos 1` where no document was sent. `path` is that of the request.
unfoldable pub send_document :
    {Wait : Type 0} → Env → Option Bytes → Bytes → Connection Wait → Run (ℤ × Connection Wait)
send_document env request path c = elim env.http_root [
  | none ↦ done (pos 1, c)
  | some root ↦
      let below = root ++ (codes "/" ++ path) in
      elim (equal path (codes "/")) [
        | true ↦ do
          (sent, c') ←
              http_try_send_file env request (root ++ codes "/index.html") (codes "text/html") c
          done (if sent then pos 0 else pos 1, c')
        | false ↦ elim (strstr below (codes "/../")) [
          | some found ↦ do c' ← http_reply env request (codes "403 Forbidden") c; done (pos 0, c')
          | none ↦ do
            (sent, c') ← http_try_send_file env request below (mime_type_from_path below) c
            done (if sent then pos 0 else pos 1, c')
        ]
      ]
]
