-- ===== src/Http/Access.antt =====
-- src/protocol_http.c: which session a request has, and which handler it reaches. A handler is known
-- by its entry of the table.
use mathlib.Core.Path.{subst}
use musicd.Base.{
  ℤ, pos, negsuc, ℕ, ◌≡◌, refl, Bool, true, false, not, ◌&&◌, ◌||◌, List, [], ◌∷◌, Option, none,
  some, ◌⊎◌, inl, inr, arith, ltb, if◌then◌else◌, Bytes, codes, equal, length, is_some, All,
  Bool-cases,
}
use musicd.Strings.Search.{strbeginswith}
use musicd.Sessions.{Session, State, session_get}
use musicd.Http.{Request, args_str, cookie_get}

pub record Method : Type 0 where
  pub name : Bytes
  pub no_auth : Bool
  pub share_capable : Bool
  pub only_prefix : Bool

abbrev pub plain_method : Bytes → Method
plain_method name = record {
  name = name;
  no_auth = false;
  share_capable = false;
  only_prefix = false;
}

abbrev pub methods : List Method
methods =
    record (plain_method (codes "/musicd")) { no_auth = true }
    ∷ record (plain_method (codes "/auth")) { no_auth = true }
    ∷ plain_method (codes "/status")
    ∷ plain_method (codes "/rescan")
    ∷ plain_method (codes "/tracks")
    ∷ plain_method (codes "/track/index")
    ∷ plain_method (codes "/artists")
    ∷ plain_method (codes "/albums")
    ∷ plain_method (codes "/image")
    ∷ plain_method (codes "/album/image")
    ∷ plain_method (codes "/album/images")
    ∷ plain_method (codes "/track/lyrics")
    ∷ record (plain_method (codes "/root")) { only_prefix = true }
    ∷ plain_method (codes "/open")
    ∷ []

-- `!strncmp(method->name, http->path, strlen(method->name))` is that the path begins with the name.
unfoldable pub matches : Method → Bytes → Bool
matches method path =
    (method.only_prefix
      && (ltb (length method.name) (length path) && strbeginswith path method.name))
    || equal method.name path

unfoldable pub forbidden : Bool → Option Session → Method → Bool
forbidden no_auth session method =
    not no_auth
    && (not method.no_auth && elim session as (λ s. Bool) [
      | none ↦ true
      | some s ↦ not method.share_capable && not (is_some s.user)
    ])

-- `unmatched` is the result 1: the request goes on to the documents.
pub data Called : Type 0 where
  refused unmatched : Called
  handler : Method → Called

unfoldable pub call_from : Bool → Option Session → Bytes → List Method → Called
call_from no_auth session path [] = unmatched
call_from no_auth session path (method ∷ table) =
    let rest = call_from no_auth session path table in
    if matches method path
    then if forbidden no_auth session method then refused else handler method
    else rest

unfoldable pub call_method : Bool → Option Session → Bytes → Called
call_method no_auth session path = call_from no_auth session path methods

-- The session's address or NULL, and the sessions after the lookups.
unfoldable pub attach_session : Bool → ℕ → Request → State → Option ℕ × State
attach_session no_auth now http st =
    let by_cookie = λ (st : State).
      elim (cookie_get http (codes "musicd-session")) as (λ c. Option ℕ × State) [
        | none ↦ (none, st)
        | some id ↦ session_get now id st
      ] in
    if no_auth then (none, st) else elim (args_str http (codes "share")) [
      | none ↦ by_cookie st
      | some id ↦
          let (share, st') = session_get now id st in
          elim share [ none ↦ by_cookie st' | some address ↦ (some address, st') ]
    ]

unfoldable pub http_detect : Bytes → ℕ → ℤ
http_detect buf buf_size =
    if strbeginswith buf (codes "GET ") || strbeginswith buf (codes "HEAD ")
    then pos 1
    else if ltb buf_size 5
    then pos 0
    else negsuc 0

-- A handler that stands in a table is one of its entries.
call_from-handler :
    (no_auth : Bool) (session : Option Session) (path : Bytes) (table : List Method)
    (method : Method) (P : Method → Type 0)
    → All P table
    → call_from no_auth session path table ≡ handler method
    → P method × (forbidden no_auth session method ≡ false) × (matches method path ≡ true)
unfolding call_from
call_from-handler no_auth session path [] method P h e = absurd (cc e)
call_from-handler no_auth session path (m ∷ table) method P (p, h) e =
    elim (Bool-cases (matches m path)) [
      | inl found ↦ elim (Bool-cases (forbidden no_auth session m)) [
        | inl bad ↦ absurd (cc (e, found, bad))
        | inr good ↦
            let reached : handler m ≡ handler method = rw good at rw found at e in
            let same : m ≡ method = cc reached in
            (
              subst P same p,
              subst (λ m. forbidden no_auth session m ≡ false) same good,
              subst (λ m. matches m path ≡ true) same found,
            )
      ]
      | inr other ↦ call_from-handler no_auth session path table method P h (rw other at e)
    ]

-- An entry that no share may use, and that is open to everyone only by one of the two names.
abbrev IsClosed : Method → Type 0
IsClosed method =
    (method.share_capable ≡ false)
    × ((method.no_auth ≡ false) ⊎ (method.name ≡ codes "/musicd") ⊎ (method.name ≡ codes "/auth"))

methods-IsClosed : All IsClosed methods
methods-IsClosed = (
  (refl, inr (inl refl)),
  (
    (refl, inr (inr refl)),
    (
      (refl, inl refl),
      (
        (refl, inl refl),
        (
          (refl, inl refl),
          (
            (refl, inl refl),
            (
              (refl, inl refl),
              (
                (refl, inl refl),
                (
                  (refl, inl refl),
                  (
                    (refl, inl refl),
                    (
                      (refl, inl refl),
                      ((refl, inl refl), ((refl, inl refl), ((refl, inl refl), tt))),
                    ),
                  ),
                ),
              ),
            ),
          ),
        ),
      ),
    ),
  ),
)

-- The session of a user, who gave the password.
abbrev pub IsUser : Option Session → Type 0
IsUser session = (s : Session) × (session ≡ some s) × (is_some s.user ≡ true)

forbidden-IsUser :
    (no_auth : Bool) (session : Option Session) (method : Method)
    → forbidden no_auth session method ≡ false
    → method.share_capable ≡ false
    → method.no_auth ≡ false
    → (no_auth ≡ true) ⊎ IsUser session
unfolding forbidden
forbidden-IsUser true session method h share closed = inl refl
forbidden-IsUser false none method h share closed = absurd (ground arith)
forbidden-IsUser false (some s) method h share closed = inr (s, refl, ground arith)

-- A request reaches a handler only if its path matches the handler's entry and authorisation is
-- switched off, or the handler is /musicd or /auth, or the request has the session of a user: the
-- session of a share is not enough, nor is none.
pub call_method-guarded :
    (no_auth : Bool) (session : Option Session) (path : Bytes) (method : Method)
    → call_method no_auth session path ≡ handler method
    → (matches method path ≡ true)
      × ((no_auth ≡ true)
          ⊎ (method.name ≡ codes "/musicd")
          ⊎ (method.name ≡ codes "/auth")
          ⊎ IsUser session)
unfolding call_method
call_method-guarded no_auth session path method e =
    let ((share, closed), good, found) =
      call_from-handler no_auth session path methods method IsClosed methods-IsClosed e in
    (
      found,
      elim closed [
        | inr (inl name) ↦ inr (inl name)
        | inr (inr name) ↦ inr (inr (inl name))
        | inl not_open ↦ elim (forbidden-IsUser no_auth session method good share not_open) [
          | inl off ↦ inl off
          | inr user ↦ inr (inr (inr user))
        ]
      ],
    )
