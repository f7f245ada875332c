-- ===== src/Sessions/Head.antt =====
-- src/session.c: what reaches the session that stands first.
use musicd.Base.{ℕ, ◌≡◌, refl, List, ◌∷◌, some, arith, true, ◌==◌, decrement}
use musicd.Memory.{done}
use musicd.Sessions.{Session, modify, session_deref}

same : (n : ℕ) → (n == n) ≡ true
same n = ground arith

pub modify-first :
    (s : Session) (ss : List Session) (f : Session → Session)
    → modify s.address f (s ∷ ss) ≡ some (f s ∷ ss)
unfolding modify
modify-first s ss f = rw (same s.address) refl

pub session_deref-first :
    (s : Session) (ss : List Session) (n : ℕ)
    → session_deref (some s.address) (record { sessions = s ∷ ss; n_sessions = n })
      ≡ done (record { sessions = record s { refs = decrement s.refs } ∷ ss; n_sessions = n })
unfolding session_deref
session_deref-first s ss n =
    rw (modify-first s ss (λ s. record s { refs = decrement s.refs }), session_deref) refl
