-- ===== src/Sessions/Oldest.antt =====
-- Which session `purge_oldest_session` chooses, and what unlinking it leaves.
use musicd.Base.{
  ℕ, ◌+◌, ◌-◌, ◌≤◌, ◌<◌, ◌≡◌, refl, true, false, ◌&&◌, List, [], ◌∷◌, ◌⊎◌, inl, inr, All, arith,
  Bool-cases, and-eq_true, ltb, ltb→lt, ◌==◌, if◌then◌else◌, length, Bytes, equal, is_zero,
}
use musicd.Sessions.{Session, oldest_from, unlink}

-- The number of sessions at an address.
abbrev pub here : ℕ → Session → ℕ
here address s = if s.address == address then 1 else 0

abbrev pub occurs : ℕ → List Session → ℕ
occurs address [] = 0
occurs address (s ∷ ss) = here address s + occurs address ss

-- The number of sessions with an id.
abbrev pub named : Bytes → Session → ℕ
named id s = if equal s.id id then 1 else 0

abbrev pub uses : Bytes → List Session → ℕ
uses id [] = 0
uses id (s ∷ ss) = named id s + uses id ss

-- Not younger than any session that nobody holds.
abbrev pub OldestOf : Session → List Session → Type 0
OldestOf oldest = All (λ p. is_zero p.refs ≡ true → oldest.last_request ≤ p.last_request)

-- What the loop finds: the first session or an unreferenced one of the others, which is at least
-- as old as every unreferenced session and as the first.
pub record Found (first found : Session) (others : List Session) : Type 0 where
  pub kind :
      (found ≡ first) ⊎ ((is_zero found.refs ≡ true) × (found.last_request < first.last_request))
  pub stands : 0 < here found.address first + occurs found.address others
  pub below_first : found.last_request ≤ first.last_request
  pub below_free : OldestOf found others

here_self : (s : Session) → here s.address s ≡ 1
here_self s = ground arith

module _ (first p found : Session) (ps : List Session) where
  Found-better :
      (ltb p.last_request first.last_request && is_zero p.refs) ≡ true
      → Found p found ps
      → Found first found (p ∷ ps)
  Found-better better f =
      let both = and-eq_true _ _ better in
      let younger = ltb→lt _ _ both.0 in
      record {
        kind = elim f.kind [
          | inl e ↦ inr (rw e both.1, rw e younger)
          | inr (free, lt) ↦ inr (free, omega arith)
        ];
        stands = omega (arith, f.stands);
        below_first = omega (arith, f.below_first);
        below_free = (λ free. f.below_first, f.below_free);
      }

  Found-worse :
      (ltb p.last_request first.last_request && is_zero p.refs) ≡ false
      → Found first found ps
      → Found first found (p ∷ ps)
  Found-worse worse f = record {
    kind = f.kind;
    stands = omega (arith, f.stands);
    below_first = f.below_first;
    below_free = (λ free. ground (arith, f.below_first), f.below_free);
  }

-- The session that the loop of `purge_oldest_session` picks is the first of the list or one that
-- nobody holds; its last request is not later than the first's, nor than that of any session that
-- nobody holds.
pub oldest_from-Found :
    (first : Session) (others : List Session) → Found first (oldest_from first others) others
unfolding oldest_from
oldest_from-Found first [] = record {
  kind = inl refl;
  stands = omega (arith, here_self first);
  below_first = omega arith;
  below_free = tt;
}
oldest_from-Found first (p ∷ ps) =
    elim (Bool-cases (ltb p.last_request first.last_request && is_zero p.refs)) [
      | inl better ↦ rw better (Found-better first p _ ps better (oldest_from-Found p ps))
      | inr worse ↦ rw worse (Found-worse first p _ ps worse (oldest_from-Found first ps))
    ]

pub unlink-occurs :
    (address a : ℕ) (ss : List Session)
    → occurs a (unlink address ss) ≡ occurs a ss - (if address == a then 1 else 0)
unfolding unlink
unlink-occurs address a [] = ground arith
unlink-occurs address a (s ∷ ss) = ground (arith, unlink-occurs address a ss)

pub unlink-uses :
    (address : ℕ) (id : Bytes) (ss : List Session) → uses id (unlink address ss) ≤ uses id ss
unfolding unlink
unlink-uses address id [] = omega arith
unlink-uses address id (s ∷ ss) = ground (arith, unlink-uses address id ss)

pub length-unlink :
    (address : ℕ) (ss : List Session)
    → 0 < occurs address ss
    → length (unlink address ss) + 1 ≡ length ss
unfolding unlink
length-unlink address [] h = omega arith
length-unlink address (s ∷ ss) h = ground (arith, length-unlink address ss)
