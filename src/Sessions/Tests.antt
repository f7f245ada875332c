-- ===== src/Sessions/Tests.antt =====
-- Calls on small lists of sessions, and instances of the theorems. A list of 10000 sessions is made
-- by a function and is not computed.
use musicd.Base.{
  ℕ, zero, suc, ◌≡◌, refl, ap, List, [], ◌∷◌, none, some, arith, ltb, length, Bytes, codes, equal,
  pos, if◌then◌else◌, ◌==◌, ◌≤◌, equal_iff,
}
use musicd.Memory.{done, fault, out_of_bounds}
use musicd.Sessions.Evict.{session_deref-session_get, purge_newest, session_new_frees_held}
use musicd.Sessions.Oldest.{occurs, uses, Found, oldest_from-Found}
use musicd.Sessions.Store.{IsValid, session_new-IsValid}
use musicd.Sessions.{
  Session, State, get_session, generate_session_id, oldest_from, find_oldest, unlink,
  purge_oldest_session, make_room, new_session, session_new, modify, session_get, session_deref,
}

abbrev alice : Session
alice = record {
  address = 1;
  id = codes "a1";
  last_request = 50;
  user = some (codes "alice");
  refs = pos 0;
}

abbrev bob : Session
bob = record {
  address = 2;
  id = codes "b2";
  last_request = 40;
  user = some (codes "bob");
  refs = pos 0;
}

abbrev carol : Session
carol = record { address = 3; id = codes "c3"; last_request = 30; user = none; refs = pos 1 }

abbrev three : State
three = record { sessions = alice ∷ bob ∷ carol ∷ []; n_sessions = 3 }

program : Unit {0}
unfolding get_session generate_session_id oldest_from find_oldest unlink purge_oldest_session
    make_room session_new modify session_get session_deref equal
program = tt

three-IsValid : IsValid three
unfolding equal
three-IsValid = record {
  counted = refl;
  bounded = omega arith;
  distinct = λ a. ground arith;
  unambiguous = λ i.
      ground (arith, equal_iff (codes "a1") i, equal_iff (codes "b2") i, equal_iff (codes "c3") i);
}

-- The oldest session is in use, so the oldest of the others goes.
purges_bob :
    purge_oldest_session three ≡ some (record { sessions = alice ∷ carol ∷ []; n_sessions = 2 })
unfolding program
purges_bob = refl

-- The first text tried is taken, which counts as a request of that session.
abbrev tries : ℕ → Bytes
tries i = if i == 0 then codes "b2" else codes "d4"

makes_a_session :
    session_new 2 tries 60 4 three
    ≡ done (
      new_session 4 (codes "d4"),
      record {
        sessions =
            new_session 4 (codes "d4") ∷ alice ∷ record bob { last_request = 60 } ∷ carol ∷ [];
        n_sessions = 4;
      },
    )
unfolding program
makes_a_session = refl

oldest_from-Found_example : Found alice (oldest_from alice (bob ∷ carol ∷ [])) (bob ∷ carol ∷ [])
oldest_from-Found_example = oldest_from-Found alice (bob ∷ carol ∷ [])

session_new-IsValid_example :
    (id : Bytes) × (st : State) × (session_new 2 tries 60 4 three ≡ done (new_session 4 id, st))
    × IsValid st
    × ((rest : List Session) × (st.sessions ≡ new_session 4 id ∷ rest))
unfolding equal
session_new-IsValid_example =
    session_new-IsValid 2 tries 60 4 1 three three-IsValid refl (omega arith) refl

session_deref-session_get_example :
    (st : State) × (session_get 70 (codes "c3") three ≡ (some 3, st))
    × (session_deref (some 3) st
        ≡ done (record three { sessions = alice ∷ bob ∷ record carol { last_request = 70 } ∷ [] }))
unfolding program
session_deref-session_get_example =
    session_deref-session_get 70 (codes "c3") three (record carol { last_request = 70 })
      (alice ∷ bob ∷ record carol { last_request = 70 } ∷ []) refl

-- A session with its maker's reference, that no request has used yet.
abbrev fresh : Session
fresh = new_session 5 (codes "e5")

purge_newest_example :
    purge_oldest_session (record { sessions = fresh ∷ three.sessions; n_sessions = 4 })
    ≡ some (record { sessions = three.sessions; n_sessions = 3 })
purge_newest_example =
    purge_newest (record { sessions = fresh ∷ three.sessions; n_sessions = 4 }) fresh three.sessions
      refl (omega arith)

-- `n` sessions that nobody has used, each held by its maker.
fill : ℕ → List Session
fill zero = []
fill (suc n) = new_session n (n ∷ []) ∷ fill n

length-fill : (n : ℕ) → length (fill n) ≡ n
unfolding fill
length-fill zero = refl
length-fill (suc n) = ap suc (length-fill n)

occurs-fill : (a n : ℕ) → occurs a (fill n) ≤ (if ltb a n then 1 else 0)
unfolding fill
occurs-fill a zero = omega arith
occurs-fill a (suc n) = ground (arith, occurs-fill a n)

uses-fill : (c n : ℕ) → uses (c ∷ []) (fill n) ≤ (if ltb c n then 1 else 0)
unfolding fill equal
uses-fill c zero = omega arith
uses-fill c (suc n) = ground (arith, uses-fill c n)

uses-fill_empty : (n : ℕ) → uses [] (fill n) ≤ 0
unfolding fill equal
uses-fill_empty zero = omega arith
uses-fill_empty (suc n) = ground (arith, uses-fill_empty n)

uses-fill_long : (c d : ℕ) (id : Bytes) (n : ℕ) → uses (c ∷ d ∷ id) (fill n) ≤ 0
unfolding fill equal
uses-fill_long c d id zero = omega arith
uses-fill_long c d id (suc n) = ground (arith, uses-fill_long c d id n)

abbrev held : Session
held = new_session 9_999 (9_999 ∷ [])

abbrev crowd : State
crowd = record { sessions = held ∷ fill 9_999; n_sessions = 10_000 }

crowd_unambiguous : (id : Bytes) → uses id crowd.sessions ≤ 1
unfolding equal
crowd_unambiguous [] = ground (arith, uses-fill_empty 9_999)
crowd_unambiguous (c ∷ []) = ground (arith, uses-fill c 9_999)
crowd_unambiguous (c ∷ d ∷ id) = ground (arith, uses-fill_long c d id 9_999)

crowd-IsValid : IsValid crowd
crowd-IsValid = record {
  counted = omega (arith, length-fill 9_999);
  bounded = omega arith;
  distinct = λ a. ground (arith, occurs-fill a 9_999);
  unambiguous = crowd_unambiguous;
}

session_new_frees_held_example :
    (session : Session) × (st : State) × (session_new 2 tries 60 10_000 crowd ≡ done (session, st))
    × (session_deref (some 9_999) st ≡ fault out_of_bounds)
session_new_frees_held_example =
    session_new_frees_held 2 tries 60 10_000 0 crowd held (fill 9_999) crowd-IsValid refl refl refl
      (omega arith) (omega arith) (omega (arith, uses-fill_long b'b' b'2' [] 9_999))
