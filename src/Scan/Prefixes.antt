-- ===== src/Scan/Prefixes.antt =====
-- src/scan.c: the array of prefixes, its text and its allocation.
use musicd.Base.{
  suc, ◌+◌, ◌≤◌, ◌≡◌, refl, sym, ap, ◌∙◌, inl, inr, Bool-cases, List, [], ◌∷◌, ◌++◌, arith,
  append_assoc, append-nil, Bytes, length, ◌==◌,
}
use musicd.Scan.{commas, pieces, split_prefixes}

-- The strings with commas between them.
unfoldable pub join : List Bytes → Bytes
join [] = []
join (s ∷ []) = s
join (s ∷ t ∷ rest) = s ++ (b',' ∷ join (t ∷ rest))

pieces-first :
    (piece p : Bytes) → (first : Bytes) × (rest : List Bytes) × (pieces piece p ≡ first ∷ rest)
unfolding pieces
pieces-first piece [] = (piece, [], refl)
pieces-first piece (c ∷ p) = elim (Bool-cases (c == b',')) [
  | inl e ↦ (piece, pieces [] p, rw (e, pieces) refl)
  | inr e ↦ rw (e, pieces) (pieces-first (piece ++ (c ∷ [])) p)
]

join-cons :
    (s : Bytes) (piece p : Bytes) → join (s ∷ pieces piece p) ≡ s ++ (b',' ∷ join (pieces piece p))
unfolding join
join-cons s piece p = let (first, rest, e) = pieces-first piece p in rw e refl

join-pieces : (piece p : Bytes) → join (pieces piece p) ≡ piece ++ p
unfolding pieces
join-pieces piece [] = unfold join in sym (append-nil piece)
join-pieces piece (c ∷ p) = elim (Bool-cases (c == b',')) [
  | inl e ↦
      let comma : c ≡ b',' = ground arith in
      rw (e, pieces)
        (join-cons piece [] p
          ∙ ap (λ t. piece ++ (b',' ∷ t)) (join-pieces [] p)
          ∙ ap (λ x. piece ++ (x ∷ p)) (sym comma))
  | inr e ↦ rw (e, pieces) (join-pieces (piece ++ (c ∷ [])) p ∙ append_assoc piece (c ∷ []) p)
]

length-pieces : (piece p : Bytes) → length (pieces piece p) ≡ suc (commas p)
unfolding pieces commas
length-pieces piece [] = refl
length-pieces piece (c ∷ p) = elim (Bool-cases (c == b',')) [
  | inl e ↦ rw (e, pieces) (ap suc (length-pieces [] p))
  | inr e ↦ rw (e, pieces) (length-pieces (piece ++ (c ∷ [])) p)
]

-- Joining the strings of the array by commas gives the text back, and the array with its closing NULL
-- is never longer than the block allocated for it, which has room for one more pointer than there are
-- commas, and for that NULL. Both hold of every text, also of those that begin with a comma or are empty.
pub split_prefixes-join :
    (prefix : Bytes)
    → (join (split_prefixes prefix) ≡ prefix)
      × (length (split_prefixes prefix) + 1 ≤ (1 + commas prefix) + 1)
unfolding split_prefixes commas join
split_prefixes-join [] = (refl, omega arith)
split_prefixes-join (c ∷ p) = (
  join-pieces (c ∷ []) p,
  elim (Bool-cases (c == b',')) [
    | inl e ↦ rw e (omega (arith, length-pieces (c ∷ []) p))
    | inr e ↦ rw (e, pieces) (omega (arith, length-pieces (c ∷ []) p))
  ],
)
