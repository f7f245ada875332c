-- ===== src/Http/Auth.antt =====
-- src/protocol_http.c: `method_auth`, the login. What `config_get` gives for the user
-- and for the password are arguments: the empty text where the setting is missing.
use musicd.Base.{
  not, ◌||◌, ℕ, ◌<◌, ◌≡◌, refl, ap, ◌∙◌, inl, inr, Bool-cases, Option-cases, true, false, List, [],
  ◌∷◌, ◌++◌, Option, none, some, append_assoc, Bytes, codes, equal, equal_iff, equal_self, length,
  drop, ℤ, pos,
}
use musicd.Memory.{Run, done, fault, out_of_bounds, bind-done, ◌>>=◌}
use musicd.Sessions.{Session, State, session_new, session_deref, modify, new_session}
use musicd.Sessions.Oldest.{occurs, uses}
use musicd.Sessions.Store.{IsValid, session_new-IsValid}
use musicd.Sessions.Head.{modify-first, session_deref-first}
use musicd.Strings.Search.{strcasestr, strchrnull, strextract}
use musicd.Client.{Connection, client_write}
use musicd.Http.{Request, args_str}
use musicd.Http.Reply.{
  Env, crlf, status_line, cors_headers, http_begin_headers, http_send_headers, http_send,
  http_reply,
}

abbrev pub response_ok : Bytes
response_ok = codes "{\"auth\":\"ok\"}"

abbrev pub response_error : Bytes
response_error = codes "{\"auth\":\"error\"}"

-- `session->user = strcopy(user)`
unfoldable pub set_user : ℕ → Bytes → State → Run State
set_user address user st = elim (modify address (λ s. record s { user = some user }) st.sessions) [
  | none ↦ fault out_of_bounds
  | some sessions ↦ done (record st { sessions = sessions })
]

cors_headers-done :
    (env : Env) (buf : Bytes) → (cors : Bytes) × (cors_headers env (some buf) ≡ done cors)
unfolding cors_headers
cors_headers-done env buf = elim (Bool-cases env.enable_cors) [
  | inr off ↦ ([], rw (off, cors_headers) refl)
  | inl on ↦ elim (Option-cases (strcasestr buf (crlf ++ codes "Origin: "))) [
    | inl e ↦ ([], rw (on, cors_headers) (rw e refl))
    | inr (start, e) ↦ (
      codes "Access-Control-Allow-"
          ++ (env.printed (strextract (drop 2 start) (strchrnull (drop 1 start) 13))
              ++ (crlf ++ (codes "Access-Control-Allow-Credentials: true" ++ crlf))),
      rw (on, cors_headers) (rw e refl),
    )
  ]
]

-- With a request at hand the headers are always sent.
http_begin_headers-done :
    {Wait : Type 0} (env : Env) (buf : Bytes) (status kind : Option Bytes) (size : Option ℕ)
    (c : Connection Wait)
    → (sent : Bytes) × (http_begin_headers env (some buf) status kind size c
        ≡ done (client_write (status_line status ++ sent) c))
unfolding http_begin_headers
http_begin_headers-done env buf status kind size c =
    let (cors, e) = cors_headers-done env buf in
    (_, bind-done (cors_headers env (some buf)) cors _ e)

client_write-append :
    {Wait : Type 0} (a b : Bytes) (c : Connection Wait)
    → client_write b (client_write a c) ≡ client_write (a ++ b) c
unfolding client_write
client_write-append a b c =
    ap (λ (out : Bytes). record c { outbuf = out }) (append_assoc c.outbuf a b)

http_send-done :
    {Wait : Type 0} (env : Env) (buf : Bytes) (status kind : Option Bytes) (content : Bytes)
    (c : Connection Wait)
    → (sent : Bytes) × (http_send env (some buf) status kind content c
        ≡ done (client_write ((status_line status ++ sent) ++ (crlf ++ content)) c))
unfolding http_send http_send_headers
http_send-done env buf status kind content c =
    let (sent, e) =
      http_begin_headers-done env buf status
        (some (elim kind as (λ t. Bytes) [ none ↦ codes "text/html" | some t ↦ t ]))
        (some (length content)) c in
    (
      sent,
      rw e (
          ap (λ d. done (client_write content d))
            (client_write-append (status_line status ++ sent) crlf c)
          ∙ ap done (client_write-append ((status_line status ++ sent) ++ crlf) content c)
          ∙ ap (λ w. done (client_write w c))
              (append_assoc (status_line status ++ sent) crlf content)),
    )

module _ {Wait : Type 0} (env : Env) (wanted_user wanted_password : Bytes) (fuel : ℕ)
    (candidate : ℕ → Bytes) (now address : ℕ) (buf : Bytes) where
  -- The new session with its user, and the reply with its cookie.
  unfoldable pub log_in : Bytes → State → Connection Wait → Run (ℤ × State × Connection Wait)
  unfolding set_user
  log_in user st c = do
    (session, st₁) ← session_new fuel candidate now address st
    st₂ ← set_user session.address user st₁
    st₃ ← session_deref (some session.address) st₂
    c' ←
        http_begin_headers env (some buf) (some (codes "200 OK")) (some (codes "text/json"))
          (some (length response_ok)) c
    done (
      pos 0,
      st₃,
      client_write
          (codes "Set-Cookie: musicd-session="
            ++ (session.id ++ (codes ";" ++ (crlf ++ (crlf ++ response_ok)))))
          c',
    )

  unfoldable pub compare_login :
      Bytes → Bytes → State → Connection Wait → Run (ℤ × State × Connection Wait)
  unfolding log_in
  compare_login user password st c =
      elim (not (equal user wanted_user) || not (equal password wanted_password)) [
        | false ↦ log_in user st c
        | true ↦ do
          c' ←
              http_send env (some buf) (some (codes "200 OK")) (some (codes "text/json"))
                response_error c
          done (pos 0, st, c')
      ]

  unfoldable pub method_auth : Request → State → Connection Wait → Run (ℤ × State × Connection Wait)
  unfolding compare_login
  method_auth http st c = elim (args_str http (codes "user")) [
    | none ↦ do c' ← http_reply env (some buf) (codes "400 Bad Requst") c; done (pos 0, st, c')
    | some user ↦ elim (args_str http (codes "password")) [
      | none ↦ do c' ← http_reply env (some buf) (codes "400 Bad Requst") c; done (pos 0, st, c')
      | some password ↦ compare_login user password st c
    ]
  ]

-- The status and the content that answer a login that fails.
abbrev pub refusal : Request → Bytes × Bytes
refusal http = elim (args_str http (codes "user")) [
  | none ↦ (codes "400 Bad Requst", codes "400 Bad Requst")
  | some user ↦ elim (args_str http (codes "password")) [
    | none ↦ (codes "400 Bad Requst", codes "400 Bad Requst")
    | some password ↦ (codes "200 OK", codes "{\"auth\":\"error\"}")
  ]
]

-- A request that does not give exactly the configured user and password makes no session and changes
-- none. What is sent is a status line, headers, an empty line and the content: 400 Bad Requst in both,
-- as the source spells it, if one of the two is missing, and else the status 200 OK with the JSON text
-- that says that the login failed.
pub method_auth-State :
    {Wait : Type 0} (env : Env) (u p : Bytes) (fuel : ℕ) (candidate : ℕ → Bytes) (now address : ℕ)
    (buf : Bytes) (http : Request) (st : State) (c : Connection Wait)
    → ¬ ((args_str http (codes "user") ≡ some u) × (args_str http (codes "password") ≡ some p))
    → (headers : Bytes) × (method_auth env u p fuel candidate now address buf http st c
        ≡ done (
          pos 0,
          st,
          client_write
              ((status_line (some (refusal http).0) ++ headers) ++ (crlf ++ (refusal http).1))
              c,
        ))
unfolding method_auth compare_login http_reply
method_auth-State env u p fuel candidate now address buf http st c wrong =
    let (bad, e) =
      http_send-done env buf (some (codes "400 Bad Requst")) (some (codes "text/plain"))
        (codes "400 Bad Requst") c in
    let (error, f) =
      http_send-done env buf (some (codes "200 OK")) (some (codes "text/json")) response_error c in
    elim (Option-cases (args_str http (codes "user"))) [
      | inl no_user ↦ (bad, rw (no_user, method_auth, refusal) (rw e refl))
      | inr (user, g) ↦ elim (Option-cases (args_str http (codes "password"))) [
        | inl no_password ↦ (bad, rw (g, method_auth, refusal) (rw no_password (rw e refl)))
        | inr (password, h) ↦ elim (Bool-cases (equal user u)) [
          | inr unknown ↦
              (error, rw (g, method_auth, refusal) (rw h (rw (unknown, compare_login) (rw f refl))))
          | inl known ↦ elim (Bool-cases (equal password p)) [
            | inr other ↦ (
              error,
              rw (g, method_auth, refusal)
                  (rw h (rw (known, compare_login) (rw other (rw f refl)))),
            )
            | inl right ↦ absurd (
                wrong (
                  g ∙ ap some ((equal_iff user u).0 known),
                  h ∙ ap some ((equal_iff password p).0 right),
                ))
          ]
        ]
      ]
    ]

set_user-first :
    (s : Session) (rest : List Session) (user : Bytes) (st : State)
    → st.sessions ≡ s ∷ rest
    → set_user s.address user st
      ≡ done
          (record { sessions = record s { user = some user } ∷ rest; n_sessions = st.n_sessions })
unfolding set_user
set_user-first s rest user st first =
    let set : modify s.address (λ s. record s { user = some user }) st.sessions
        ≡ some (record s { user = some user } ∷ rest) =
      ap (modify s.address (λ s. record s { user = some user })) first
      ∙ modify-first s rest (λ s. record s { user = some user }) in
    rw (set, set_user) refl

-- A request that gives the configured user and password always gets a session of its own, with this user
-- and no reference left, in front of the others; the last that is sent is its cookie. The sessions are
-- as their calls build them; `malloc` gives an address that is not in use, and one of the ids tried is
-- free.
pub method_auth-session_new :
    {Wait : Type 0} (env : Env) (u p : Bytes) (fuel : ℕ) (candidate : ℕ → Bytes) (now address k : ℕ)
    (buf : Bytes) (http : Request) (st : State) (c : Connection Wait)
    → IsValid st
    → occurs address st.sessions ≡ 0
    → k < fuel
    → uses (candidate k) st.sessions ≡ 0
    → args_str http (codes "user") ≡ some u
    → args_str http (codes "password") ≡ some p
    → (id : Bytes) × (rest : List Session) × (n : ℕ) × (sent : Bytes) × (method_auth env u p fuel
          candidate now address buf http st c
        ≡ done (
          pos 0,
          record {
            sessions = record (new_session address id) { user = some u; refs = pos 0 } ∷ rest;
            n_sessions = n;
          },
          client_write
              (codes "Set-Cookie: musicd-session="
                ++ (id ++ (codes ";" ++ (crlf ++ (crlf ++ response_ok)))))
              (client_write sent c),
        ))
unfolding method_auth compare_login log_in
method_auth-session_new env u p fuel candidate now address k buf http st c v unused in_time free g
      h =
    let (id, st', made, v', (rest, first)) =
      session_new-IsValid fuel candidate now address k st v unused in_time free in
    let named = record (new_session address id) { user = some u } in
    let (sent, e) =
      http_begin_headers-done env buf (some (codes "200 OK")) (some (codes "text/json"))
        (some (length response_ok)) c in
    let user_set = set_user-first (new_session address id) rest u st' first in
    (
      id,
      rest,
      st'.n_sessions,
      status_line (some (codes "200 OK")) ++ sent,
      rw (g, method_auth)
          (rw h (
            rw (equal_self u, compare_login)
              (rw (equal_self p) (
                rw made (
                  rw user_set (rw (session_deref-first named rest st'.n_sessions) (rw e refl))))))),
    )
