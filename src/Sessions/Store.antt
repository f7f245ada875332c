-- ===== src/Sessions/Store.antt =====
-- src/session.c: the list of sessions, its size and what tells sessions apart.

use musicd.Base.{
  ℕ, zero, suc, ◌+◌, ◌-◌, ◌≤◌, ◌<◌, ◌≡◌, refl, ap, ◌∙◌, true, List, [], ◌∷◌, inl, inr, none, some,
  arith, Bool-cases, Option-cases, List-cases, ltb, ltb→lt, lt→leb, le→leb, leb, ◌==◌, length,
  Bytes, equal, equal_iff,
}
use musicd.Memory.{done}
use musicd.Sessions.Oldest.{
  occurs, uses, unlink-uses, oldest_from-Found, unlink-occurs, length-unlink,
}
use musicd.Sessions.{
  Session, State, max_sessions, get_session, generate_session_id, oldest_from, find_oldest, unlink,
  purge_oldest_session, make_room, new_session, session_new, modify,
}

pub record IsValid (st : State) : Type 0 where
  pub counted : st.n_sessions ≡ length st.sessions
  pub bounded : st.n_sessions ≤ max_sessions
  pub distinct : (address : ℕ) → occurs address st.sessions ≤ 1
  pub unambiguous : (id : Bytes) → uses id st.sessions ≤ 1

-- The sessions of both lists have the same addresses and ids, as often.
pub record SameShape (ss ts : List Session) : Type 0 where
  pub lengths : length ts ≡ length ss
  pub addresses : (address : ℕ) → occurs address ts ≡ occurs address ss
  pub ids : (id : Bytes) → uses id ts ≡ uses id ss

pub get_session-SameShape :
    (now : ℕ) (id : Bytes) (ss : List Session) {found : Session} {ts : List Session}
    → get_session now id ss ≡ some (found, ts)
    → SameShape ss ts
unfolding get_session
get_session-SameShape now id [] h = absurd (ground arith)
get_session-SameShape now id (s ∷ ss) {found} {ts} h = elim (Bool-cases (equal s.id id)) [
  | inl same ↦ record {
    lengths = ground arith;
    addresses = λ a. ground arith;
    ids = λ i. ground arith;
  }
  | inr other ↦ elim (Option-cases (get_session now id ss)) [
    | inl e ↦ absurd (ground arith)
    | inr ((f, rest), e) ↦
        let same = get_session-SameShape now id ss e in
        record {
          lengths = ground (arith, same.lengths);
          addresses = λ a. ground (arith, same.addresses a);
          ids = λ i. ground (arith, same.ids i);
        }
  ]
]

pub get_session-none :
    (now : ℕ) (id : Bytes) (ss : List Session) → uses id ss ≡ 0 → get_session now id ss ≡ none
unfolding get_session
get_session-none now id [] h = refl
get_session-none now id (s ∷ ss) h = ground (arith, get_session-none now id ss)

uses-get_session :
    (now : ℕ) (id : Bytes) (ss : List Session) → get_session now id ss ≡ none → uses id ss ≡ 0
unfolding get_session
uses-get_session now id [] h = refl
uses-get_session now id (s ∷ ss) h = ground (arith, uses-get_session now id ss)

modify-SameShape :
    (address : ℕ) (f : Session → Session) (ss : List Session) {ts : List Session}
    → ((s : Session) → (f s).address ≡ s.address)
    → ((s : Session) → (f s).id ≡ s.id)
    → modify address f ss ≡ some ts
    → SameShape ss ts
unfolding modify
modify-SameShape address f [] at_same id_same h = absurd (ground arith)
modify-SameShape address f (s ∷ ss) {ts} at_same id_same h =
    elim (Bool-cases (s.address == address)) [
      | inl at ↦ record {
        lengths = ground arith;
        addresses = λ a. ground (arith, at_same s);
        ids = λ i. ground (arith, id_same s);
      }
      | inr off ↦ elim (Option-cases (modify address f ss)) [
        | inl e ↦ absurd (ground arith)
        | inr (rest, e) ↦
            let same = modify-SameShape address f ss at_same id_same e in
            record {
              lengths = ground (arith, same.lengths);
              addresses = λ a. ground (arith, same.addresses a);
              ids = λ i. ground (arith, same.ids i);
            }
      ]
    ]

generate_retry :
    (fuel : ℕ) (candidate : ℕ → Bytes) (now : ℕ) (ss : List Session) (i : ℕ) {taken : Session}
    {rest : List Session}
    → get_session now (candidate i) ss ≡ some (taken, rest)
    → generate_session_id (suc fuel) candidate now ss i
      ≡ generate_session_id fuel candidate now rest (i + 1)
unfolding generate_session_id
generate_retry fuel candidate now ss i e = rw (e, generate_session_id)

-- A text that no session has is found among the first `fuel` tried.
pub generate_total :
    (fuel : ℕ) (candidate : ℕ → Bytes) (now : ℕ) (ss : List Session) (i k : ℕ)
    → k < fuel
    → uses (candidate (i + k)) ss ≡ 0
    → (id : Bytes) × (ts : List Session) × (generate_session_id fuel candidate now ss i
        ≡ done (id, ts))
      × SameShape ss ts
      × (uses id ts ≡ 0)
generate_total zero candidate now ss i k h free = elim h [ ]
generate_total (suc fuel) candidate now ss i zero h free =
    let here : candidate (i + 0) ≡ candidate i = ap candidate (omega arith) in
    let free' : uses (candidate i) ss ≡ 0 = rw here at free in
    (
      candidate i,
      ss,
      unfold generate_session_id in
          rw (get_session-none now (candidate i) ss free', generate_session_id),
      record { lengths = refl; addresses = λ a. refl; ids = λ a. refl },
      free',
    )
generate_total (suc fuel) candidate now ss i (suc k) h free =
    elim (Option-cases (get_session now (candidate i) ss)) [
      | inl e ↦ (
        candidate i,
        ss,
        unfold generate_session_id in rw (e, generate_session_id),
        record { lengths = refl; addresses = λ a. refl; ids = λ a. refl },
        uses-get_session now (candidate i) ss e,
      )
      | inr ((f, rest), e) ↦
          let same = get_session-SameShape now (candidate i) ss e in
          let there : candidate (i + suc k) ≡ candidate (i + 1 + k) = ap candidate (omega arith) in
          let (id, ts, made, shape, none_yet) =
            generate_total fuel candidate now rest (i + 1) k (omega arith)
              (same.ids (candidate (i + 1 + k)) ∙ (rw there at free)) in
          (
            id,
            ts,
            generate_retry fuel candidate now ss i e ∙ made,
            record {
              lengths = omega (arith, same.lengths, shape.lengths);
              addresses = λ a. omega (arith, same.addresses a, shape.addresses a);
              ids = λ a. omega (arith, same.ids a, shape.ids a);
            },
            none_yet,
          )
    ]

-- One purge of a list that is not empty.
abbrev pub purged : Session → List Session → ℕ → State
purged s ss n = record { sessions = unlink (oldest_from s ss).address (s ∷ ss); n_sessions = n - 1 }

pub purge-purged :
    (st : State) (s : Session) (ss : List Session)
    → st.sessions ≡ s ∷ ss
    → purge_oldest_session st ≡ some (purged s ss st.n_sessions)
unfolding purge_oldest_session find_oldest
purge-purged st s ss e = rw (e, find_oldest)

purged-IsValid :
    (st : State) (s : Session) (ss : List Session)
    → st.sessions ≡ s ∷ ss
    → IsValid st
    → IsValid (purged s ss st.n_sessions)
purged-IsValid st s ss e v =
    let found = oldest_from-Found s ss in
    let oldest = oldest_from s ss in
    record {
      counted =
          omega (arith, v.counted, ap length e, length-unlink oldest.address (s ∷ ss) found.stands);
      bounded = omega (arith, v.bounded);
      distinct = λ a.
          omega (arith, unlink-occurs oldest.address a (s ∷ ss), v.distinct a, ap (occurs a) e);
      unambiguous = λ id.
          omega (arith, unlink-uses oldest.address id (s ∷ ss), v.unambiguous id, ap (uses id) e);
    }

make_room-below :
    (fuel : ℕ) (st : State) → st.n_sessions < max_sessions → make_room (suc fuel) st ≡ done st
unfolding make_room
make_room-below fuel st h = rw (lt→leb max_sessions st.n_sessions h, make_room)

pub make_room-full :
    (fuel : ℕ) (st : State) (s : Session) (ss : List Session)
    → st.n_sessions ≡ max_sessions
    → st.sessions ≡ s ∷ ss
    → make_room (suc (suc fuel)) st ≡ done (purged s ss st.n_sessions)
make_room-full fuel st s ss full e =
    let at_limit : leb max_sessions st.n_sessions ≡ true =
      le→leb max_sessions st.n_sessions (omega arith) in
    unfold make_room in
    rw (at_limit, make_room)
      (rw (purge-purged st s ss e) (make_room-below fuel (purged s ss st.n_sessions) (omega arith)))

-- Room for one more, and nothing new in the list.
pub record HasRoom (st st' : State) : Type 0 where
  pub valid : IsValid st'
  pub room : st'.n_sessions < max_sessions
  pub no_new : (address : ℕ) → occurs address st'.sessions ≤ occurs address st.sessions
  pub no_new_id : (id : Bytes) → uses id st'.sessions ≤ uses id st.sessions

make_room-HasRoom :
    (st : State)
    → IsValid st
    → (st' : State) × (make_room (suc st.n_sessions) st ≡ done st') × HasRoom st st'
make_room-HasRoom st v = elim (Bool-cases (ltb st.n_sessions max_sessions)) [
  | inl below ↦ (
    st,
    make_room-below st.n_sessions st (ltb→lt _ _ below),
    record {
      valid = v;
      room = ltb→lt _ _ below;
      no_new = λ a. omega arith;
      no_new_id = λ a. omega arith;
    },
  )
  | inr full ↦
      let n : st.n_sessions ≡ max_sessions = ground (arith, v.bounded) in
      elim (List-cases st.sessions) [
        | inl e ↦ absurd (omega (arith, v.counted, ap length e))
        | inr (s, ss, e) ↦
            let oldest = oldest_from s ss in
            (
              purged s ss st.n_sessions,
              ap (λ k. make_room (suc k) st) n ∙ make_room-full 9_999 st s ss n e,
              record {
                valid = purged-IsValid st s ss e v;
                room = omega arith;
                no_new =
                    λ a. omega (arith, unlink-occurs oldest.address a (s ∷ ss), ap (occurs a) e);
                no_new_id =
                    λ id. omega (arith, unlink-uses oldest.address id (s ∷ ss), ap (uses id) e);
              },
            )
      ]
]

-- `session_new` always returns, at every state that its calls build: the new session stands first
-- with one reference, its address and id are no other session's, and there are at most 10000
-- sessions. `malloc` gives an address that is not in use, and one of the texts tried is free.
pub session_new-IsValid :
    (fuel : ℕ) (candidate : ℕ → Bytes) (now address k : ℕ) (st : State)
    → IsValid st
    → occurs address st.sessions ≡ 0
    → k < fuel
    → uses (candidate k) st.sessions ≡ 0
    → (id : Bytes) × (st' : State) × (session_new fuel candidate now address st
        ≡ done (new_session address id, st'))
      × IsValid st'
      × ((rest : List Session) × (st'.sessions ≡ new_session address id ∷ rest))
session_new-IsValid fuel candidate now address k st v unused in_time free =
    let (st₁, roomy, r) = make_room-HasRoom st v in
    let there : uses (candidate (0 + k)) st₁.sessions ≡ uses (candidate k) st₁.sessions =
      ap (λ j. uses (candidate j) st₁.sessions) (omega arith) in
    let (id, ts, made, shape, none_yet) =
      generate_total fuel candidate now st₁.sessions 0 k in_time
        (there ∙ omega (arith, free, r.no_new_id (candidate k))) in
    let st' : State = record {
      sessions = new_session address id ∷ ts;
      n_sessions = st₁.n_sessions + 1;
    } in
    (
      id,
      st',
      unfold session_new in rw roomy (rw made),
      record {
        counted = omega (arith, shape.lengths, r.valid.counted);
        bounded = omega (arith, r.room);
        distinct = λ a. ground (arith, shape.addresses a, r.no_new a, v.distinct a, unused);
        unambiguous =
            λ i. ground (arith, shape.ids i, r.valid.unambiguous i, equal_iff id i, none_yet);
      },
      (ts, refl),
    )
