-- ===== src/Strings/Growth.antt =====
-- src/strings.c: the doubling loop of `string_ensure_space`.
use native.Mathlib.Nat.{pow-suc}
use musicd.Base.{
  ℕ, zero, suc, ap, lt→ltb, ◌∙◌, ◌*◌, ◌%◌, ◌^◌, ◌≤◌, ◌<◌, ◌≡◌, refl, inl, inr, Bool-cases, ltb,
  ltb→lt, arith,
}
use musicd.Memory.{done, fault, endless}
use musicd.Strings.{grow, size_mod}

abbrev pub size_half : ℕ
size_half = 9_223_372_036_854_775_808

-- One round; below half the range the doubling does not wrap.
grow_round :
    (fuel max_size size : ℕ)
    → max_size < size
    → size ≤ size_half
    → grow (suc fuel) max_size size ≡ grow fuel (max_size * 2) size
unfolding grow
grow_round fuel max_size size small s =
    let fits : (max_size * 2) % size_mod ≡ max_size * 2 = omega arith in
    rw (lt→ltb _ _ small) (ap (λ m. grow fuel m size) fits)

pub grow_ends :
    (fuel max_size size : ℕ)
    → 0 < max_size
    → size ≤ size_half
    → size ≤ max_size * 2 ^ fuel
    → (m : ℕ) × (grow (suc fuel) max_size size ≡ done m) × (size ≤ m) × (max_size ≤ m)
grow_ends zero max_size size p s h =
    (max_size, unfold grow in ground arith, omega arith, omega arith)
grow_ends (suc fuel) max_size size p s h = elim (Bool-cases (ltb max_size size)) [
  | inl small ↦
      let lt = ltb→lt max_size size small in
      let (m, ends, enough, kept) =
        grow_ends fuel (max_size * 2) size (omega arith) s (omega (arith, rw pow-suc at h)) in
      (m, grow_round (suc fuel) max_size size lt s ∙ ends, enough, omega arith)
  | inr big ↦ (max_size, unfold grow in ground arith, ground arith, omega arith)
]

pub grow-zero : (fuel size : ℕ) → 0 < size → grow fuel 0 size ≡ fault endless
unfolding grow
grow-zero zero size h = refl
grow-zero (suc fuel) size h = ground (arith, grow-zero fuel size h)
