-- ===== src/Http/Process.antt =====
-- src/protocol_http.c: `http_process`, from the bytes received to the reply. The handlers of the
-- methods are an argument: what they send, and what they make of the sessions. A NULL or freed
-- pointer that is followed is a fault.
use musicd.Base.{
  ℕ, zero, suc, ◌*◌, ◌-◌, Bool, true, false, not, ◌||◌, List, [], ◌∷◌, ◌++◌, Option, none, some,
  ltb, ◌==◌, if◌then◌else◌, Bytes, codes, length, drop, ℤ, pos, negsuc, is_negative,
}
use musicd.Memory.{Run, done, ◌>>=◌}
use musicd.Strings.Search.{strbeginswith, strstr, strstrnull, strchr, strextract}
use musicd.Sessions.{Session, State, session_deref}
use musicd.Client.{Connection}
use musicd.Http.{Request}
use musicd.Http.Access.{Method, refused, unmatched, handler, attach_session, call_method}
use musicd.Http.Reply.{Env, crlf, http_reply, send_document}

abbrev pub max_header_size : ℕ
max_header_size = 10 * 1024

-- What stands behind the first space.
unfoldable pub behind_space : Bytes → Bytes
behind_space [] = []
behind_space (c ∷ s) = if c == b' ' then s else behind_space s

-- The loop for the end of the query: the text before the first space; none if the line, or the text,
-- ends first.
unfoldable pub upto_space : Bytes → Option Bytes
upto_space [] = none
upto_space (c ∷ s) =
    let rest = elim (upto_space s) as (λ o. Option Bytes) [
      | none ↦ none
      | some query ↦ some (c ∷ query)
    ] in
    if c == b' ' then some [] else if c == 13 || c == 10 then none else rest

-- The path and the arguments of a query.
unfoldable pub split_query : Bytes → Bytes × Option Bytes
split_query query = elim (strchr query b'?') [
  | none ↦ (query, none)
  | some found ↦ (strextract query found, some (drop 1 found))
]

-- The header of cookies, with its name.
unfoldable pub extract_cookies : Bytes → Bytes
extract_cookies buf = elim (strstr buf (codes "Cookie: ")) [
  | none ↦ []
  | some found ↦ strextract found (strstrnull found crlf)
]

pub record Parsed : Type 0 where
  pub path : Bytes
  pub request : Request

-- The request line and the cookies; none is answered with an error.
unfoldable pub parse_request : Bytes → Option Parsed
unfolding behind_space upto_space split_query extract_cookies
parse_request buf =
    if not (strbeginswith buf (codes "GET ") || strbeginswith buf (codes "HEAD "))
    then none
    else if not (strbeginswith (behind_space buf) (codes "/"))
    then none
    else elim (upto_space (behind_space buf)) [
      | none ↦ none
      | some query ↦
          let (path, args) = split_query query in
          some (record {
            path = path;
            request = record { args = args; cookies = extract_cookies buf };
          })
    ]

-- `http->session`.
unfoldable pub session_at : Option ℕ → List Session → Option Session
session_at none sessions = none
session_at (some address) [] = none
session_at (some address) (s ∷ sessions) =
    if s.address == address then some s else session_at (some address) sessions

module _ {Wait : Type 0} (env : Env) (no_auth : Bool) (now : ℕ)
    (handle : Method
      → Bytes
      → Parsed
      → Option Session
      → State
      → Connection Wait
      → Run (ℤ × State × Connection Wait)) where
  unfoldable pub process_request :
      Bytes → Parsed → Option Session → State → Connection Wait → Run (ℤ × State × Connection Wait)
  process_request buf parsed session st c = elim (call_method no_auth session parsed.path) [
    | refused ↦ do c' ← http_reply env (some buf) (codes "403 Forbidden") c; done (pos 0, st, c')
    | handler method ↦ handle method buf parsed session st c
    | unmatched ↦ do
      (result, c') ← send_document env (some buf) parsed.path c
      elim result as (λ r. Run (ℤ × State × Connection Wait)) [
        | pos (suc n) ↦ do
          c'' ← http_reply env (some buf) (codes "404 Not Found") c'
          done (pos 0, st, c'')
        | pos zero ↦ done (pos 0, st, c')
        | negsuc n ↦ done (negsuc n, st, c')
      ]
  ]

  -- A request whose headers are complete and whose line is well formed. `behind` is what follows them.
  unfoldable pub answer :
      Bytes → Bytes → Parsed → State → Connection Wait → Run (ℤ × State × Connection Wait)
  unfolding process_request
  answer buf behind parsed st c = do
    let attached = attach_session no_auth now parsed.request st
    let session = session_at attached.0 attached.1.sessions
    (result, st', c') ← process_request buf parsed session attached.1 c
    st'' ← session_deref attached.0 st'
    done (if is_negative result then result else pos (length buf - length behind), st'', c')

  -- The result is the number of bytes consumed, or negative. Before the whole request is there,
  -- `http->request` is NULL or points into a buffer that was since overwritten.
  unfoldable pub http_process : Bytes → State → Connection Wait → Run (ℤ × State × Connection Wait)
  unfolding answer parse_request
  http_process buf st c = elim (strstr buf (crlf ++ crlf)) [
    | none ↦ elim (ltb max_header_size (length buf)) [
      | true ↦ do c' ← http_reply env none (codes "400 Bad Request") c; done (negsuc 0, st, c')
      | false ↦ done (pos 0, st, c)
    ]
    | some found ↦ elim (parse_request buf) [
      | none ↦ do
        let known = strbeginswith buf (codes "GET ") || strbeginswith buf (codes "HEAD ")
        c' ← http_reply env (if known then some buf else none) (codes "400 Bad Request") c
        done (negsuc 0, st, c')
      | some parsed ↦ answer buf (drop 4 found) parsed st c
    ]
  ]
