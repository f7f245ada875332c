-- ===== src/Http/Parse.antt =====
-- The request line read back, and how requests that are not whole end.

use musicd.Base.{
  ℕ, ◌-◌, ◌≤◌, ◌≡◌, refl, ap, ◌∙◌, Bool, true, not, ◌&&◌, ◌||◌, [], ◌∷◌, ◌++◌, Option, none, some,
  inl, inr, arith, Bool-cases, Option-cases, append-nil, ltb, ◌==◌, if◌then◌else◌, All, All-append,
  length, drop, Bytes, codes, ℤ, pos, negsuc, is_negative,
}
use musicd.Memory.{Allows, Allows-bind, Run, done, fault, out_of_bounds}
use musicd.Strings.Search.{strbeginswith, strstr, strchr, strextract-append}
use musicd.Sessions.{Session, State, session_deref}
use musicd.Client.{client_write, Connection}
use musicd.Http.Access.{Method, attach_session}
use musicd.Http.Reply.{
  Env, crlf, version, status_line, cors_headers, http_begin_headers, http_send_headers, http_send,
  http_reply,
}
use musicd.Http.Process.{
  max_header_size, behind_space, upto_space, split_query, extract_cookies, Parsed, parse_request,
  session_at, process_request, answer, http_process,
}

-- A byte of a query: not a space, and not the end of the line.
abbrev pub query_byte : ℕ → Bool
query_byte c = not (c == b' ') && not (c == 13 || c == 10)

-- A byte of a path: also not where the arguments begin.
abbrev pub path_byte : ℕ → Bool
path_byte c = query_byte c && not (c == b'?')

abbrev pub print_args : Option Bytes → Bytes
print_args none = []
print_args (some args) = b'?' ∷ args

abbrev pub IsArgs : Option Bytes → Type 0
IsArgs none = Unit
IsArgs (some args) = All (λ c. query_byte c ≡ true) args

-- A request for a path below the root, with its arguments; `rest` begins with the version of HTTP.
abbrev pub print_request : Bytes → Option Bytes → Bytes → Bytes
print_request path args rest = codes "GET " ++ (((b'/' ∷ path) ++ print_args args) ++ (b' ' ∷ rest))

upto_space-query :
    (query rest : Bytes)
    → All (λ c. query_byte c ≡ true) query
    → upto_space (query ++ (b' ' ∷ rest)) ≡ some query
unfolding upto_space
upto_space-query [] rest h = refl
upto_space-query (c ∷ query) rest (p, h) = ground (arith, upto_space-query query rest h)

strchr-path :
    (path behind : Bytes)
    → All (λ c. path_byte c ≡ true) path
    → strchr (path ++ behind) b'?' ≡ strchr behind b'?'
unfolding strchr
strchr-path [] behind h = refl
strchr-path (c ∷ path) behind (p, h) = ground (arith, strchr-path path behind h)

split_query-print :
    (path : Bytes) (args : Option Bytes)
    → All (λ c. path_byte c ≡ true) path
    → split_query (path ++ print_args args) ≡ (path, args)
unfolding split_query
split_query-print path none h =
    let nothing : strchr (path ++ []) b'?' ≡ none = strchr-path path [] h ∙ unfold strchr in refl in
    rw (nothing, split_query) (ap (λ (p : Bytes). (p, none)) (append-nil path))
split_query-print path (some args) h =
    let found : strchr (path ++ (b'?' ∷ args)) b'?' ≡ some (b'?' ∷ args) =
      strchr-path path (b'?' ∷ args) h ∙ unfold strchr in refl in
    rw (found, split_query)
      (ap (λ (p : Bytes). (p, some args)) (strextract-append path (b'?' ∷ args)))

All-query :
    (path : Bytes) → All (λ c. path_byte c ≡ true) path → All (λ c. query_byte c ≡ true) path
All-query [] h = tt
All-query (c ∷ path) (p, h) = (ground arith, All-query path h)

args-query : (args : Option Bytes) → IsArgs args → All (λ c. query_byte c ≡ true) (print_args args)
args-query none h = tt
args-query (some args) h = (refl, h)

-- A GET for any path that begins with a slash, has no question mark, and of any arguments, neither with
-- spaces or ends of lines, is read back as this path and these arguments, whatever stands behind the
-- line's first space.
pub parse_request-print_request :
    (path : Bytes) (args : Option Bytes) (rest : Bytes)
    → All (λ c. path_byte c ≡ true) path
    → IsArgs args
    → parse_request (print_request path args rest)
      ≡ some (record {
        path = b'/' ∷ path;
        request = record { args = args; cookies = extract_cookies (print_request path args rest) };
      })
unfolding parse_request behind_space strbeginswith
parse_request-print_request path args rest h k =
    let query = (b'/' ∷ path) ++ print_args args in
    let plain : All (λ c. query_byte c ≡ true) query =
      All-append (λ c. query_byte c ≡ true) (b'/' ∷ path) (print_args args) (refl, All-query path h)
        (args-query args k) in
    rw (upto_space-query query rest plain, parse_request)
      (rw (split_query-print (b'/' ∷ path) args (refl, h)) refl)

module _ {Wait : Type 0} (env : Env) (no_auth : Bool) (now : ℕ)
    (handle : Method
      → Bytes
      → Parsed
      → Option Session
      → State
      → Connection Wait
      → Run (ℤ × State × Connection Wait)) where
  -- The reply to headers that are too long.
  abbrev pub too_long : Connection Wait → Connection Wait
  too_long c = client_write (codes "400 Bad Request") (
      client_write crlf (
        client_write
          (status_line (some (codes "400 Bad Request"))
            ++ ((codes "Server: musicd/" ++ (version ++ crlf))
                ++ ((codes "Content-Length: " ++ (env.decimal 15 ++ crlf))
                    ++ ((codes "Content-Type: "
                          ++ (codes "text/plain" ++ (codes "; charset=utf-8" ++ crlf)))
                        ++ []))))
          c))

  -- While the empty line that ends the headers has not arrived, nothing is consumed, sent or changed; but
  -- once more than 10 KiB have, the client is ended behind the error reply, or, where cross-origin
  -- sharing is enabled, the server follows a pointer to no request.
  pub http_process-strstr :
      (buf : Bytes) (st : State) (c : Connection Wait)
      → strstr buf (crlf ++ crlf) ≡ none
      → http_process env no_auth now handle buf st c ≡ (
          if ltb max_header_size (length buf)
          then (if env.enable_cors then fault out_of_bounds else done (negsuc 0, st, too_long c))
          else done (pos 0, st, c))
  unfolding http_process http_reply http_send http_send_headers http_begin_headers cors_headers
  http_process-strstr buf st c e =
      rw (e, http_process)
        (elim (Bool-cases (ltb max_header_size (length buf))) [
          | inl long ↦ elim (Bool-cases env.enable_cors) [
            | inl cors ↦ rw (long, http_process) (rw (cors, http_reply) refl)
            | inr cors ↦ rw (long, http_process) (rw (cors, http_reply) refl)
          ]
          | inr short ↦ rw (short, http_process) refl
        ])

  -- A result that is not negative is a number of bytes of the buffer.
  abbrev pub InBuffer : Bytes → ℤ × State × Connection Wait → Type 0
  InBuffer buf (pos n, st, c) = n ≤ length buf
  InBuffer buf (negsuc n, st, c) = Unit

  answered :
      (buf behind : Bytes) (result : ℤ) (st : State) (c : Connection Wait)
      → InBuffer buf
          (if is_negative result then result else pos (length buf - length behind), st, c)
  answered buf behind (pos n) st c = omega arith
  answered buf behind (negsuc n) st c = tt

  answer-InBuffer :
      (buf behind : Bytes) (parsed : Parsed) (st : State) (c : Connection Wait)
      → Allows (answer env no_auth now handle buf behind parsed st c) (InBuffer buf)
  unfolding answer
  answer-InBuffer buf behind parsed st c =
      let attached = attach_session no_auth now parsed.request st in
      let session = session_at attached.0 attached.1.sessions in
      Allows-bind (process_request env no_auth now handle buf parsed session attached.1 c) _
        (InBuffer buf)
        (λ r.
          Allows-bind (session_deref attached.0 r.1) _ (InBuffer buf)
            (λ st''. answered buf behind r.0 st'' r.2))

  -- `http_process` never claims to have consumed more than the buffer holds, whatever the handlers do: a
  -- result that is not negative is at most the number of bytes received.
  pub http_process-InBuffer :
      (buf : Bytes) (st : State) (c : Connection Wait)
      → Allows (http_process env no_auth now handle buf st c) (InBuffer buf)
  unfolding http_process
  http_process-InBuffer buf st c = elim (Option-cases (strstr buf (crlf ++ crlf))) [
    | inl e ↦
        rw (e, http_process)
          (elim (Bool-cases (ltb max_header_size (length buf))) [
            | inl long ↦ rw long (
                Allows-bind (http_reply env none (codes "400 Bad Request") c) _ (InBuffer buf)
                  (λ c'. tt))
            | inr short ↦ rw short (omega arith)
          ])
    | inr (found, e) ↦
        rw (e, http_process)
          (elim (Option-cases (parse_request buf)) [
            | inl k ↦ rw k (
                Allows-bind (http_reply env _ (codes "400 Bad Request") c) _ (InBuffer buf)
                  (λ c'. tt))
            | inr (parsed, k) ↦ rw k (answer-InBuffer buf (drop 4 found) parsed st c)
          ])
  ]
