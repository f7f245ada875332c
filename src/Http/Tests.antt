-- ===== src/Http/Tests.antt =====
-- Requests with arguments and cookies, and instances of the theorems.
use musicd.Base.{
  ℕ, zero, suc, ℤ, negsuc, replicate, length, if◌then◌else◌, ltb, is_some, inl, inr, ◌≡◌, refl, ap,
  Bool, List, [], ◌∷◌, ◌++◌, Option, none, some, ◌⊎◌, true, false, equal, pos, Bytes, codes, arith,
}
use musicd.Memory.{Run, Allows, fault, out_of_bounds, done}
use musicd.Queries.{Query, Field, title, album, query_new, track_query}
use musicd.Http.{Request, decode_url, cookie_get, args_str, args_ptr, find_arg, parse_query_filters}
use musicd.Http.Encode.{encode_url, decode_url-encode_url}
use musicd.Http.Filters.{
  print_filters, set_filters, parse_query_filters-ends, parse_query_filters-print_filters,
}
use musicd.Sessions.{Session, State}
use musicd.Client.{
  Connection, Protocol, Read, chunk, normal, client_new, client_process, read_all, read_data,
}
use musicd.Client.Tests.{echo, takes_all}
use musicd.Client.Steps.{received}
use musicd.Http.Reply.{Env, crlf, status_line, send_document}
use musicd.Http.Process.{max_header_size, extract_cookies, Parsed, parse_request, http_process}
use musicd.Http.Parse.{
  print_request, parse_request-print_request, too_long, http_process-strstr, InBuffer,
  http_process-InBuffer,
}
use musicd.Http.Documents.{IsDocument, send_document-IsDocument, client_process-http_detect}
use musicd.Http.Access.{
  Method, http_detect, plain_method, handler, refused, matches, forbidden, call_from, call_method,
  IsUser, call_method-guarded,
}
use musicd.Strings.Search.{strbeginswith, strstr, or_end, strchr, strextract}
use musicd.Client.{client_write}
use musicd.Sessions.{new_session}
use musicd.Sessions.Store.{IsValid}
use musicd.Http.{args_ptr, find_arg, upto_nul}
use musicd.Http.Auth.{response_ok, method_auth, method_auth-State, method_auth-session_new}

decode_url-encode_url_example :
    decode_url (encode_url (codes "a b") ++ codes "&x") ≡ (some (codes "a b"), codes "&x")
decode_url-encode_url_example =
    decode_url-encode_url (codes "a b") (codes "&x") (omega arith, (omega arith, (omega arith, tt)))
      refl

abbrev filters : List (Field × Bytes)
filters = (title, codes "a&b") ∷ (album, codes "c") ∷ []

abbrev request : Request
request = record {
  args = some (print_filters filters);
  cookies = codes "a=b; musicd-session=12; c=d";
}

abbrev query : Query
query = query_new track_query

parse_query_filters-ends_example :
    (query' : Query) × (parse_query_filters request query ≡ done query')
parse_query_filters-ends_example = parse_query_filters-ends request query

parse_query_filters-print_filters_example :
    parse_query_filters request query ≡ done (set_filters filters query)
parse_query_filters-print_filters_example =
    parse_query_filters-print_filters request filters query refl (
      (
        refl,
        (
          (omega arith, omega arith),
          ((omega arith, omega arith), ((omega arith, omega arith), tt)),
        ),
      ),
      ((refl, ((omega arith, omega arith), tt)), tt),
    )

session_cookie : cookie_get request (codes "musicd-session") ≡ some (codes "12")
unfolding cookie_get strstr strbeginswith strextract or_end strchr
session_cookie = refl

-- A name is found in any argument that begins with it.
prefix_found :
    args_str (record request { args = some (codes "usermode=1&user=me") }) (codes "user") ≡ some []
unfolding args_str args_ptr find_arg strbeginswith
prefix_found = refl

abbrev user_session : Option Session
user_session = some (record {
  address = 1;
  id = codes "12";
  last_request = 0;
  user = some (codes "me");
  refs = pos 1;
})

status_called :
    call_method false user_session (codes "/status") ≡ handler (plain_method (codes "/status"))
unfolding call_method call_from matches forbidden equal strbeginswith
status_called = refl

status_refused : call_method false none (codes "/status") ≡ refused
unfolding call_method call_from matches forbidden equal strbeginswith
status_refused = refl

call_method-guarded_example :
    (matches (plain_method (codes "/status")) (codes "/status") ≡ true)
    × ((false ≡ true)
        ⊎ (codes "/status" ≡ codes "/musicd")
        ⊎ (codes "/status" ≡ codes "/auth")
        ⊎ IsUser user_session)
call_method-guarded_example =
    call_method-guarded false user_session (codes "/status") (plain_method (codes "/status"))
      status_called

parse_request-print_request_example :
    parse_request (print_request (codes "lib") (some (codes "id=3")) (codes "HTTP/1.1"))
    ≡ some (record {
      path = codes "/lib";
      request = record {
        args = some (codes "id=3");
        cookies =
            extract_cookies (print_request (codes "lib") (some (codes "id=3")) (codes "HTTP/1.1"));
      };
    })
parse_request-print_request_example =
    parse_request-print_request (codes "lib") (some (codes "id=3")) (codes "HTTP/1.1")
      (refl, (refl, (refl, tt))) (refl, (refl, (refl, (refl, tt))))

abbrev env : Env
env = record {
  decimal = λ n. codes "15";
  printed = λ text. text;
  enable_cors = true;
  http_root = some (codes "/srv");
  files = λ path. some (codes "x");
}

abbrev handle :
    Method → Bytes → Parsed → Option Session → State → Connection ℕ → Run (ℤ × State × Connection ℕ)
handle method buf parsed session st c = done (pos 0, st, c)

abbrev no_sessions : State
no_sessions = record { sessions = []; n_sessions = 0 }

abbrev connected : Connection ℕ
connected = record { outbuf = []; state = normal }

-- More than 10 KiB without an end of line.
abbrev flood : Bytes
flood = replicate 10241 b'x'

strstr-xs : (n : ℕ) → strstr (replicate n b'x') (crlf ++ crlf) ≡ none
unfolding strstr strbeginswith
strstr-xs zero = refl
strstr-xs (suc n) = strstr-xs n

http_process-strstr_example : http_process env false 0 handle flood no_sessions connected ≡ (
    if ltb max_header_size (length flood)
    then (if env.enable_cors
        then fault out_of_bounds
        else done (negsuc 0, no_sessions, too_long env false 0 handle connected))
    else done (pos 0, no_sessions, connected))
http_process-strstr_example =
    http_process-strstr env false 0 handle flood no_sessions connected (strstr-xs 10241)

http_process-InBuffer_example :
    Allows
      (http_process env false 0 handle
        (codes "GET / HTTP/1.1" ++ (crlf ++ crlf))
        no_sessions
        connected)
      (InBuffer env false 0 handle (codes "GET / HTTP/1.1" ++ (crlf ++ crlf)))
http_process-InBuffer_example =
    http_process-InBuffer env false 0 handle (codes "GET / HTTP/1.1" ++ (crlf ++ crlf)) no_sessions
      connected

abbrev without_parents : Bytes → Option Bytes
without_parents path = if is_some (strstr path (codes "/../")) then none else some (codes "x")

without_parents-IsDocument :
    (file : Bytes) → IsDocument (codes "/srv") file → env.files file ≡ without_parents file
unfolding strstr strbeginswith
without_parents-IsDocument file (inl e) = rw e refl
without_parents-IsDocument file (inr (rest, (e, k))) = rw k refl

send_document-IsDocument_example :
    send_document env none (codes "/../passwd") connected
    ≡ send_document (record env { files = without_parents }) none (codes "/../passwd") connected
send_document-IsDocument_example =
    send_document-IsDocument env without_parents (codes "/srv") none (codes "/../passwd") connected
      refl without_parents-IsDocument

-- The HTTP protocol's own detection, with the handlers of the echo.
abbrev http : Protocol ℕ ℕ
http = record echo { detect = http_detect }

abbrev reads : List Read
reads = chunk b'G' (codes "E") ∷ []

client_process-http_detect_example :
    client_process (http ∷ []) reads takes_all (client_new 5)
    ≡ done (
      negsuc 0,
      record (client_new 5) {
        inbuf = (client_new {Self = ℕ} {Wait = ℕ} 5).inbuf ++ received reads;
      },
    )
unfolding client_new read_all read_data http_detect strbeginswith
client_process-http_detect_example =
    client_process-http_detect http reads takes_all (client_new 5) (λ buf. refl) refl refl refl

abbrev login : Request
login = record request { args = some (codes "user=me&password=x") }

other_password : ¬ (args_str login (codes "password") ≡ some (codes "y"))
unfolding args_str args_ptr find_arg strbeginswith decode_url upto_nul equal
other_password h =
    let e : true ≡ false =
      ap
        (λ (o : Option Bytes). elim o as (λ o. Bool) [
          | none ↦ false
          | some t ↦ equal t (codes "x")
        ])
        h in
    absurd (cc e)

method_auth-State_example :
    (headers : Bytes) × (method_auth env
        (codes "me")
        (codes "y")
        1
        (λ i. codes "a1")
        0
        1
        (codes "GET")
        login
        no_sessions
        connected
      ≡ done (
        pos 0,
        no_sessions,
        client_write
            ((status_line (some (codes "200 OK")) ++ headers)
              ++ (crlf ++ codes "{\"auth\":\"error\"}"))
            connected,
      ))
unfolding args_str args_ptr find_arg strbeginswith decode_url upto_nul
method_auth-State_example =
    method_auth-State env (codes "me") (codes "y") 1 (λ i. codes "a1") 0 1 (codes "GET") login
      no_sessions connected (λ (h, k). other_password k)

no_sessions-IsValid : IsValid no_sessions
no_sessions-IsValid = record {
  counted = refl;
  bounded = omega arith;
  distinct = λ address. omega arith;
  unambiguous = λ id. omega arith;
}

method_auth-session_new_example :
    (id : Bytes) × (rest : List Session) × (n : ℕ) × (sent : Bytes) × (method_auth env
        (codes "me")
        (codes "x")
        1
        (λ i. codes "a1")
        0
        1
        (codes "GET")
        login
        no_sessions
        connected
      ≡ done (
        pos 0,
        record {
          sessions = record (new_session 1 id) { user = some (codes "me"); refs = pos 0 } ∷ rest;
          n_sessions = n;
        },
        client_write
            (codes "Set-Cookie: musicd-session="
              ++ (id ++ (codes ";" ++ (crlf ++ (crlf ++ response_ok)))))
            (client_write sent connected),
      ))
unfolding args_str args_ptr find_arg strbeginswith decode_url upto_nul
method_auth-session_new_example =
    method_auth-session_new env (codes "me") (codes "x") 1 (λ i. codes "a1") 0 1 0 (codes "GET")
      login no_sessions connected no_sessions-IsValid refl (omega arith) refl refl refl
