-- ===== src/Base/CStrings.antt =====
-- C strings: byte tests and the searches of <string.h> that the sources call.
use Prim.Native.Char.{code}
use Prim.Native.Nat.{ℕ}
use Prim.Native.String.{String}
use mathlib.Core.Path.{◌≡◌, refl}
use mathlib.Core.Logic.{◌↔◌}
use mathlib.Core.Bool.{Bool, true, false, ◌&&◌}
use mathlib.Core.List.{List, [], ◌∷◌}
use native.Mathlib.Omega.{arith}
use musicd.Base.Tests.{◌==◌}

abbrev pub Bytes : Type 0
Bytes = List ℕ

-- The bytes of a literal of the source; every literal below is ASCII.
abbrev pub codes : String → Bytes
codes String.[] = []
codes (String.◌∷◌ c s) = code c ∷ codes s

-- The byte that a pointer points at.
abbrev pub peek : Bytes → ℕ
peek [] = 0
peek (c ∷ s) = c

-- `++p`
abbrev pub tail : Bytes → Bytes
tail [] = []
tail (c ∷ s) = s

-- `strcmp(a, b) == 0`
unfoldable pub equal : Bytes → Bytes → Bool
equal [] [] = true
equal [] (y ∷ b) = false
equal (x ∷ a) [] = false
equal (x ∷ a) (y ∷ b) = x == y && equal a b

pub equal_iff : (a b : Bytes) → (equal a b ≡ true) ↔ (a ≡ b)
unfolding equal
equal_iff [] [] = ground arith
equal_iff [] (y ∷ b) = ground arith
equal_iff (x ∷ a) [] = ground arith
equal_iff (x ∷ a) (y ∷ b) = ground (arith, equal_iff a b)

pub equal_self : (a : Bytes) → equal a a ≡ true
equal_self a = (equal_iff a a).1 refl
