-- ===== src/Sessions.antt =====
-- src/session.c: the list of sessions, newest first, with reference counts. A session is known by
-- its address; `session_mutex` makes each call one step. `time` and the text that `stringf` makes of
-- the time and `rand` are arguments. The fields `prev` and `next` are the order of the list.
pub mod Oldest
pub mod Store
pub mod Head
pub mod Evict
mod Tests
use mathlib.Core.Option
use musicd.Base.{
  ℕ, zero, suc, ◌+◌, ◌-◌, Bool, true, false, ◌&&◌, List, [], ◌∷◌, Option, none, some, ltb, leb,
  ◌==◌, if◌then◌else◌, Bytes, equal, ℤ, pos, increment, decrement, is_zero,
}
use musicd.Memory.{Run, done, fault, endless, out_of_bounds, ◌>>=◌}

pub record Session : Type 0 where
  pub address : ℕ
  pub id : Bytes
  pub last_request : ℕ
  -- a user, or NULL for a share
  pub user : Option Bytes
  pub refs : ℤ

pub record State : Type 0 where
  pub sessions : List Session
  pub n_sessions : ℕ

abbrev pub max_sessions : ℕ
max_sessions = 10_000

pub get_session : ℕ → Bytes → List Session → Option (Session × List Session)
get_session now id [] = none
get_session now id (s ∷ ss) =
    if equal s.id id
    then some (record s { last_request = now }, record s { last_request = now } ∷ ss)
    else Option.map (λ (found, rest). (found, s ∷ rest)) (get_session now id ss)

-- `do id = stringf(…); while (get_session(id));` the i-th text tried is `candidate i`.
pub generate_session_id : ℕ → (ℕ → Bytes) → ℕ → List Session → ℕ → Run (Bytes × List Session)
generate_session_id zero candidate now ss i = fault endless
generate_session_id (suc fuel) candidate now ss i = elim (get_session now (candidate i) ss) [
  | none ↦ done (candidate i, ss)
  | some (taken, ss') ↦ generate_session_id fuel candidate now ss' (i + 1)
]

-- The loop over all sessions in `purge_oldest_session`, behind the first.
pub oldest_from : Session → List Session → Session
oldest_from oldest [] = oldest
oldest_from oldest (p ∷ ps) =
    oldest_from (if ltb p.last_request oldest.last_request && is_zero p.refs then p else oldest) ps

pub find_oldest : List Session → Option Session
find_oldest [] = none
find_oldest (s ∷ ss) = some (oldest_from s ss)

pub unlink : ℕ → List Session → List Session
unlink address [] = []
unlink address (s ∷ ss) = if s.address == address then ss else s ∷ unlink address ss

-- `none` is the error that is returned for an empty list.
pub purge_oldest_session : State → Option State
purge_oldest_session st = elim (find_oldest st.sessions) [
  | none ↦ none
  | some oldest ↦
      some (record { sessions = unlink oldest.address st.sessions; n_sessions = st.n_sessions - 1 })
]

-- `while (n_sessions >= MAX_SESSIONS && !purge_oldest_session()) { }`
pub make_room : ℕ → State → Run State
make_room zero st = fault endless
make_room (suc fuel) st = elim (leb max_sessions st.n_sessions) [
  | false ↦ done st
  | true ↦ elim (purge_oldest_session st) [ none ↦ done st | some st' ↦ make_room fuel st' ]
]

-- What `malloc` and `memset` give.
abbrev pub new_session : ℕ → Bytes → Session
new_session address id = record {
  address = address;
  id = id;
  last_request = 0;
  user = none;
  refs = pos 1;
}

pub session_new : ℕ → (ℕ → Bytes) → ℕ → ℕ → State → Run (Session × State)
session_new fuel candidate now address st = do
  st' ← make_room (suc st.n_sessions) st
  (id, ss) ← generate_session_id fuel candidate now st'.sessions 0
  let session = new_session address id
  done (session, record { sessions = session ∷ ss; n_sessions = st'.n_sessions + 1 })

-- Changes the session at an address; there is no such session if the pointer dangles.
pub modify : ℕ → (Session → Session) → List Session → Option (List Session)
modify address f [] = none
modify address f (s ∷ ss) =
    if s.address == address
    then some (f s ∷ ss)
    else Option.map (λ rest. s ∷ rest) (modify address f ss)

-- The session's address and the new state, or NULL.
pub session_get : ℕ → Bytes → State → Option ℕ × State
session_get now id st = elim (get_session now id st.sessions) [
  | none ↦ (none, st)
  | some (found, ss) ↦ (
    some found.address,
    record st {
      sessions =
          Option.get_or (modify found.address (λ s. record s { refs = increment s.refs }) ss) ss;
    },
  )
]

-- A dangling pointer is a fault.
pub session_deref : Option ℕ → State → Run State
session_deref none st = done st
session_deref (some address) st =
    elim (modify address (λ s. record s { refs = decrement s.refs }) st.sessions) [
      | none ↦ fault out_of_bounds
      | some ss ↦ done (record st { sessions = ss })
    ]
