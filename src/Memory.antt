-- ===== src/Memory.antt =====
-- Heap blocks as the C code uses them: malloc, realloc, memcpy and memmove with their bounds.
-- A cell that was never written is `none`. What a call can do besides returning is a `Fault`.
use musicd.Base.{
  ℕ, zero, suc, ◌-◌, ◌+◌, ◌≤◌, ◌≡◌, refl, ap, List, [], ◌∷◌, ◌++◌, Option, none, arith, length,
  take, drop, length-append, drop-length_append, leb, if◌then◌else◌,
}

pub data Fault : Type 0 where
  out_of_bounds endless assert_failed freed_twice aborted : Fault

pub data Run {ℓ} (A : Type ℓ) : Type ℓ where
  done : A → Run A
  fault : Fault → Run A

infixl 5 ◌>>=◌
abbrev pub ◌>>=◌ {ℓ κ} : {A : Type ℓ} {B : Type κ} → Run A → (A → Run B) → Run B
done a >>= f = f a
fault e >>= f = fault e

abbrev pub Cells : Type 0
Cells = List (Option ℕ)

abbrev pub fresh : ℕ → Cells
fresh zero = []
fresh (suc n) = none ∷ fresh n

pub length-fresh : (n : ℕ) → length (fresh n) ≡ n
length-fresh zero = refl
length-fresh (suc n) = ap suc (length-fresh n)

-- `realloc(block, n)`
unfoldable pub realloc : ℕ → Cells → Cells
realloc n block = take n block ++ fresh (n - length block)

-- `memcpy(block, source, length source)`
unfoldable pub overwrite : Cells → Cells → Run Cells
overwrite [] block = done block
overwrite (x ∷ xs) [] = fault out_of_bounds
overwrite (x ∷ xs) (c ∷ block) = do rest ← overwrite xs block; done (x ∷ rest)

-- `memcpy(block + n, source, length source)`
unfoldable pub store : ℕ → Cells → Cells → Run Cells
unfolding overwrite
store zero source block = overwrite source block
store (suc n) source [] = fault out_of_bounds
store (suc n) source (c ∷ block) = do rest ← store n source block; done (c ∷ rest)

-- The `count` cells from `block + n` on, as memcpy and memmove read them.
unfoldable pub load : ℕ → ℕ → Cells → Run Cells
load n count block =
    if leb (n + count) (length block) then done (take count (drop n block)) else fault out_of_bounds

pub take_all {ℓ} : {A : Type ℓ} (n : ℕ) (xs : List A) → length xs ≤ n → take n xs ≡ xs
take_all zero [] h = refl
take_all zero (x ∷ xs) h = absurd (omega arith)
take_all (suc n) [] h = refl
take_all (suc n) (x ∷ xs) h = ap (◌∷◌ x) (take_all n xs (omega arith))

pub take-length_append {ℓ} : {A : Type ℓ} (xs ys : List A) → take (length xs) (xs ++ ys) ≡ xs
take-length_append [] ys = refl
take-length_append (x ∷ xs) ys = ap (◌∷◌ x) (take-length_append xs ys)

-- A block that grows keeps what it holds.
pub realloc_grows :
    (n : ℕ) (block : Cells) → length block ≤ n → realloc n block ≡ block ++ fresh (n - length block)
unfolding realloc
realloc_grows n block h = ap (λ b. b ++ fresh (n - length block)) (take_all n block h)

pub length-realloc : (n : ℕ) (block : Cells) → length block ≤ n → length (realloc n block) ≡ n
length-realloc n block h = omega (
  arith,
  ap length (realloc_grows n block h),
  length-append block (fresh (n - length block)),
  length-fresh (n - length block),
)

overwrite-append :
    (xs old post : Cells) → length xs ≡ length old → overwrite xs (old ++ post) ≡ done (xs ++ post)
unfolding overwrite
overwrite-append [] [] post h = refl
overwrite-append [] (c ∷ old) post h = absurd (omega arith)
overwrite-append (x ∷ xs) [] post h = absurd (omega arith)
overwrite-append (x ∷ xs) (c ∷ old) post h = ground (arith, overwrite-append xs old post)

-- A copy that lies within a block replaces just the cells under it.
pub store-append :
    (pre xs old post : Cells) (n : ℕ)
    → n ≡ length pre
    → length xs ≡ length old
    → store n xs (pre ++ (old ++ post)) ≡ done (pre ++ (xs ++ post))
unfolding store
store-append [] xs old post zero e h = overwrite-append xs old post h
store-append [] xs old post (suc n) e h = absurd (omega arith)
store-append (c ∷ pre) xs old post zero e h = absurd (omega arith)
store-append (c ∷ pre) xs old post (suc n) e h =
    ground (arith, store-append pre xs old post n (omega arith) h)

pub load-append :
    (pre xs post : Cells) (n count : ℕ)
    → n ≡ length pre
    → count ≡ length xs
    → load n count (pre ++ (xs ++ post)) ≡ done xs
unfolding load
load-append pre xs post n count e h =
    rw (e, h) ground
      (
        arith,
        length-append pre (xs ++ post),
        length-append xs post,
        drop-length_append pre (xs ++ post),
        take-length_append xs post,
      )

-- The run returns, and what it returns is as stated.
abbrev pub Ensures {ℓ} : {A : Type ℓ} → Run A → (A → Type 0) → Type 0
Ensures (done a) P = P a
Ensures (fault e) P = ⊥

pub Ensures-bind {ℓ κ} :
    {A : Type ℓ} {B : Type κ} (m : Run A) (f : A → Run B) (P : A → Type 0) (Q : B → Type 0)
    → Ensures m P
    → ((a : A) → P a → Ensures (f a) Q)
    → Ensures (m >>= f) Q
Ensures-bind (done a) f P Q h k = k a h
Ensures-bind (fault e) f P Q h k = absurd h

-- What a run that returns as stated returns.
pub Ensures-done {ℓ} :
    {A : Type ℓ} (m : Run A) (P : A → Type 0) → Ensures m P → (a : A) × (m ≡ done a) × P a
Ensures-done (done a) P h = (a, refl, h)
Ensures-done (fault e) P h = absurd h

pub Ensures-weaken {ℓ} :
    {A : Type ℓ} (m : Run A) (P : A → Type 0) (Q : A → Type 0)
    → Ensures m P
    → ((a : A) → P a → Q a)
    → Ensures m Q
Ensures-weaken (done a) P Q h k = k a h
Ensures-weaken (fault e) P Q h k = absurd h

-- What the run returns, if it returns, is as stated.
abbrev pub Allows {ℓ} : {A : Type ℓ} → Run A → (A → Type 0) → Type 0
Allows (done a) P = P a
Allows (fault e) P = Unit

pub Allows-bind {ℓ κ} :
    {A : Type ℓ} {B : Type κ} (m : Run A) (f : A → Run B) (Q : B → Type 0)
    → ((a : A) → Allows (f a) Q)
    → Allows (m >>= f) Q
Allows-bind (done a) f Q k = k a
Allows-bind (fault e) f Q k = tt

pub bind-ext {ℓ κ} :
    {A : Type ℓ} {B : Type κ} (m : Run A) (f g : A → Run B)
    → ((a : A) → f a ≡ g a)
    → (m >>= f) ≡ (m >>= g)
bind-ext (done a) f g h = h a
bind-ext (fault e) f g h = refl

pub bind-done {ℓ κ} :
    {A : Type ℓ} {B : Type κ} (m : Run A) (a : A) (f : A → Run B) → m ≡ done a → (m >>= f) ≡ f a
bind-done m a f e = ap (λ r. r >>= f) e
