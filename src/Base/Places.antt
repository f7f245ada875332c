-- ===== src/Base/Places.antt =====
-- Reading, writing and removing at a place of a list.
use Prim.Native.Nat.{ℕ, zero, suc, ◌+◌, ◌<◌}
use mathlib.Core.Path.{◌≡◌, refl, ap, subst}
use mathlib.Core.List.{List, [], ◌∷◌, ◌++◌, map}
use mathlib.Core.Option.{some}
use native.Mathlib.Omega.{arith}
use musicd.Base.Lists.{length, get_elem?, set, remove_at, All}

pub get_elem?-some {ℓ} :
    {A : Type ℓ} (xs : List A) (i : ℕ) → i < length xs → (x : A) × (get_elem? xs i ≡ some x)
get_elem?-some [] i h = absurd (omega arith)
get_elem?-some (x ∷ xs) zero h = (x, refl)
get_elem?-some (x ∷ xs) (suc i) h = get_elem?-some xs i (omega arith)

pub length-set {ℓ} : {A : Type ℓ} (xs : List A) (i : ℕ) (v : A) → length (set xs i v) ≡ length xs
length-set [] i v = refl
length-set (x ∷ xs) zero v = refl
length-set (x ∷ xs) (suc i) v = ap suc (length-set xs i v)

pub length-remove_at {ℓ} :
    {A : Type ℓ} (i : ℕ) (xs : List A) → i < length xs → length (remove_at i xs) + 1 ≡ length xs
length-remove_at i [] h = absurd (omega arith)
length-remove_at zero (x ∷ xs) h = omega arith
length-remove_at (suc i) (x ∷ xs) h = omega (arith, length-remove_at i xs)

pub set-append {ℓ} :
    {A : Type ℓ} (xs ys : List A) (i : ℕ) (v : A)
    → i < length xs
    → set (xs ++ ys) i v ≡ set xs i v ++ ys
set-append [] ys i v h = absurd (omega arith)
set-append (x ∷ xs) ys zero v h = refl
set-append (x ∷ xs) ys (suc i) v h = ap (◌∷◌ x) (set-append xs ys i v (omega arith))

pub set-map {ℓ κ} :
    {A : Type ℓ} {B : Type κ} (f : A → B) (xs : List A) (i : ℕ) (v : A)
    → set (map f xs) i (f v) ≡ map f (set xs i v)
set-map f [] i v = refl
set-map f (x ∷ xs) zero v = refl
set-map f (x ∷ xs) (suc i) v = ap (◌∷◌ (f x)) (set-map f xs i v)

pub All-set {ℓ} :
    {A : Type ℓ} (P : A → Type 0) (xs : List A) (i : ℕ) (v : A)
    → All P xs
    → P v
    → All P (set xs i v)
All-set P [] i v h p = tt
All-set P (x ∷ xs) zero v (h, hs) p = (p, hs)
All-set P (x ∷ xs) (suc i) v (h, hs) p = (h, All-set P xs i v hs p)

pub All-remove_at {ℓ} :
    {A : Type ℓ} (P : A → Type 0) (i : ℕ) (xs : List A) → All P xs → All P (remove_at i xs)
All-remove_at P i [] h = tt
All-remove_at P zero (x ∷ xs) (h, hs) = hs
All-remove_at P (suc i) (x ∷ xs) (h, hs) = (h, All-remove_at P i xs hs)

pub All-get_elem? {ℓ} :
    {A : Type ℓ} (P : A → Type 0) (xs : List A) (i : ℕ) (x : A)
    → All P xs
    → get_elem? xs i ≡ some x
    → P x
All-get_elem? P [] i x h e = absurd (cc e)
All-get_elem? P (y ∷ xs) zero x (h, hs) e = subst P (cc e) h
All-get_elem? P (y ∷ xs) (suc i) x (h, hs) e = All-get_elem? P xs i x hs e
