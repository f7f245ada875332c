-- ===== src/Sessions/Evict.antt =====
-- References: taking one and giving it back, and a session that is freed while it is held.

use musicd.Base.{
  ℕ, suc, ◌+◌, ◌-◌, ◌<◌, ◌≡◌, ◌≢◌, refl, ap, ◌∙◌, true, false, List, [], ◌∷◌, inl, inr, none, some,
  arith, Bool-cases, Option-cases, ◌==◌, Bytes, equal, increment, decrement, decrement-increment,
}
use musicd.Memory.{done, fault, out_of_bounds}
use musicd.Sessions.Oldest.{occurs, uses, OldestOf}
use musicd.Sessions.Store.{IsValid, generate_total, purged, purge-purged, make_room-full}
use musicd.Sessions.{
  Session, State, max_sessions, get_session, oldest_from, unlink, purge_oldest_session, make_room,
  new_session, session_new, modify, session_get, session_deref,
}

get_session-occurs :
    (now : ℕ) (id : Bytes) (ss : List Session) {found : Session} {ts : List Session}
    → get_session now id ss ≡ some (found, ts)
    → 0 < occurs found.address ts
unfolding get_session
get_session-occurs now id [] h = absurd (ground arith)
get_session-occurs now id (s ∷ ss) {found} {ts} h = elim (Bool-cases (equal s.id id)) [
  | inl same ↦ ground arith
  | inr other ↦ elim (Option-cases (get_session now id ss)) [
    | inl e ↦ absurd (ground arith)
    | inr ((f, rest), e) ↦ ground (arith, get_session-occurs now id ss e)
  ]
]

modify-here :
    (address : ℕ) (f : Session → Session) (s : Session) (ss : List Session)
    → (s.address == address) ≡ true
    → modify address f (s ∷ ss) ≡ some (f s ∷ ss)
unfolding modify
modify-here address f s ss at = rw at

modify-later :
    (address : ℕ) (f : Session → Session) (s : Session) (ss : List Session) {ts : List Session}
    → (s.address == address) ≡ false
    → modify address f ss ≡ some ts
    → modify address f (s ∷ ss) ≡ some (s ∷ ts)
unfolding modify
modify-later address f s ss off e = rw off (rw e)

modify-none :
    (address : ℕ) (f : Session → Session) (ss : List Session)
    → occurs address ss ≡ 0
    → modify address f ss ≡ none
unfolding modify
modify-none address f [] h = refl
modify-none address f (s ∷ ss) h = ground (arith, modify-none address f ss)

-- A change at an address in the list, and one that undoes it.
modify_undo :
    (address : ℕ) (f g : Session → Session) (ss : List Session)
    → ((s : Session) → (f s).address ≡ s.address)
    → ((s : Session) → g (f s) ≡ s)
    → 0 < occurs address ss
    → (ts : List Session) × (modify address f ss ≡ some ts) × (modify address g ts ≡ some ss)
modify_undo address f g [] keeps undo h = absurd (omega arith)
modify_undo address f g (s ∷ ss) keeps undo h = elim (Bool-cases (s.address == address)) [
  | inl at ↦ (
    f s ∷ ss,
    modify-here address f s ss at,
    modify-here address g (f s) ss (ap (λ a. a == address) (keeps s) ∙ at)
        ∙ ap (λ t. some (t ∷ ss)) (undo s),
  )
  | inr off ↦
      let (ts, forth, back) = modify_undo address f g ss keeps undo (ground arith) in
      (s ∷ ts, modify-later address f s ss off forth, modify-later address g s ts off back)
]

-- A session that is looked up and given back is left as it was but for the time of the request,
-- and so are all others: the reference taken is the one that is given back.
pub session_deref-session_get :
    (now : ℕ) (id : Bytes) (st : State) (found : Session) (touched : List Session)
    → get_session now id st.sessions ≡ some (found, touched)
    → (st' : State) × (session_get now id st ≡ (some found.address, st'))
      × (session_deref (some found.address) st' ≡ done (record st { sessions = touched }))
session_deref-session_get now id st found touched e =
    let (ts, taken, given) =
      modify_undo found.address (λ s. record s { refs = increment s.refs })
        (λ s. record s { refs = decrement s.refs }) touched (λ s. refl)
        (λ s. ap (λ r. record s { refs = r }) (decrement-increment s.refs))
        (get_session-occurs now id st.sessions e) in
    (
      record st { sessions = ts },
      unfold session_get in rw (e, session_get) (rw taken),
      unfold session_deref in rw (given, session_deref),
    )

oldest_from-first : (s : Session) (ss : List Session) → OldestOf s ss → oldest_from s ss ≡ s
unfolding oldest_from
oldest_from-first s [] h = refl
oldest_from-first s (p ∷ ps) h = ground (arith, oldest_from-first s ps h.1, h.0)

unlink-first : (s : Session) (ss : List Session) → unlink s.address (s ∷ ss) ≡ ss
unfolding unlink
unlink-first s ss = ground arith

-- The newest session is freed, whether it is held or not, if no session that nobody holds is
-- strictly older.
pub purge_newest :
    (st : State) (s : Session) (ss : List Session)
    → st.sessions ≡ s ∷ ss
    → OldestOf s ss
    → purge_oldest_session st ≡ some (record { sessions = ss; n_sessions = st.n_sessions - 1 })
purge_newest st s ss e h =
    let oldest : unlink (oldest_from s ss).address (s ∷ ss) ≡ ss =
      ap (λ o. unlink o.address (s ∷ ss)) (oldest_from-first s ss h) ∙ unlink-first s ss in
    purge-purged st s ss e
    ∙ ap (λ l. some (record { sessions = l; n_sessions = st.n_sessions - 1 })) oldest

OldestOf-zero : (s : Session) (ss : List Session) → s.last_request ≡ 0 → OldestOf s ss
OldestOf-zero s [] h = tt
OldestOf-zero s (p ∷ ps) h = (λ free. omega arith, OldestOf-zero s ps h)

-- With 10000 sessions, a call of `session_new` frees the session that the last one made, if no
-- request has used that since (its `last_request` is still 0): also if its maker holds it, who
-- then gives back a reference to freed memory.
pub session_new_frees_held :
    (fuel : ℕ) (candidate : ℕ → Bytes) (now address k : ℕ) (st : State) (held : Session)
    (others : List Session)
    → IsValid st
    → st.n_sessions ≡ max_sessions
    → st.sessions ≡ held ∷ others
    → held.last_request ≡ 0
    → address ≢ held.address
    → k < fuel
    → uses (candidate k) others ≡ 0
    → (session : Session) × (st' : State) × (session_new fuel candidate now address st
        ≡ done (session, st'))
      × (session_deref (some held.address) st' ≡ fault out_of_bounds)
session_new_frees_held fuel candidate now address k st held others v full e unused new_place in_time
      free =
    let n : st.n_sessions ≡ max_sessions = full in
    let left : State = record { sessions = others; n_sessions = st.n_sessions - 1 } in
    let zero_last = OldestOf-zero held others unused in
    let same_state : purged held others st.n_sessions ≡ left =
      ap (λ l. record { sessions = l; n_sessions = st.n_sessions - 1 })
        (ap (λ o. unlink o.address (held ∷ others)) (oldest_from-first held others zero_last)
          ∙ unlink-first held others) in
    let roomy : make_room (suc st.n_sessions) st ≡ done left =
      ap (λ k. make_room (suc k) st) n
      ∙ make_room-full 9_999 st held others n e
      ∙ ap done same_state in
    let (id, ts, made, shape, none_yet) =
      generate_total fuel candidate now others 0 k in_time
        (ap (λ j. uses (candidate j) others) (omega arith) ∙ free) in
    let st' : State = record {
      sessions = new_session address id ∷ ts;
      n_sessions = left.n_sessions + 1;
    } in
    let gone : occurs held.address st'.sessions ≡ 0 =
      ground (
        arith,
        shape.addresses held.address,
        v.distinct held.address,
        ap (occurs held.address) e,
      ) in
    (
      new_session address id,
      st',
      unfold session_new in rw roomy (rw made),
      unfold session_deref in
          rw (
            modify-none held.address (λ s. record s { refs = decrement s.refs }) st'.sessions gone,
            session_deref,
          ),
    )
