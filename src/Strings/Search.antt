-- ===== src/Strings/Search.antt =====
-- The searches of src/strings.c and of <string.h> over C strings. A found place is the pair of what
-- stands before it and the suffix from it on.
use mathlib.Core.Option
use mathlib.Core.Path.{subst}
use musicd.Memory.{take-length_append}
use musicd.Base.{
  ℕ, ◌+◌, ◌-◌, ◌≡◌, refl, ap, inl, inr, ◌↔◌, ◌≢◌, map, [], ◌∷◌, ◌++◌, Option, none, some, Bool,
  true, false, ◌&&◌, Bool-cases, and-eq_true, length, take, length-append, peek, tail, leb, ==_iff,
  ◌==◌, arith, if◌then◌else◌, Bytes,
}

-- `tolower` in the C locale.
unfoldable pub tolower : ℕ → ℕ
tolower c = if leb b'A' c && leb c b'Z' then c + 32 else c

-- `strncmp(s, what, strlen(what)) == 0`
unfoldable pub strbeginswith : Bytes → Bytes → Bool
strbeginswith s [] = true
strbeginswith [] (w ∷ what) = false
strbeginswith (c ∷ s) (w ∷ what) = c == w && strbeginswith s what

-- The same up to case, as the inner loop of `strcasestr` tests it.
unfoldable pub begins_nocase : Bytes → Bytes → Bool
unfolding tolower
begins_nocase s [] = true
begins_nocase [] (w ∷ what) = false
begins_nocase (c ∷ s) (w ∷ what) = tolower c == tolower w && begins_nocase s what

-- `strchr(s, c)` for a byte that is not NUL.
unfoldable pub strchr : Bytes → ℕ → Option Bytes
strchr [] c = none
strchr (x ∷ s) c = if x == c then some (x ∷ s) else strchr s c

-- `strstr(s, what)`
unfoldable pub strstr : Bytes → Bytes → Option Bytes
unfolding strbeginswith
strstr [] what = if strbeginswith [] what then some [] else none
strstr (c ∷ s) what = if strbeginswith (c ∷ s) what then some (c ∷ s) else strstr s what

-- Unlike `strstr`, `strcasestr` finds nothing in the empty text.
unfoldable pub strcasestr : Bytes → Bytes → Option Bytes
unfolding begins_nocase
strcasestr [] needle = none
strcasestr (c ∷ s) needle =
    if begins_nocase (c ∷ s) needle then some (c ∷ s) else strcasestr s needle

unfoldable pub or_end : Option Bytes → Bytes
or_end none = []
or_end (some s) = s

abbrev pub strchrnull : Bytes → ℕ → Bytes
strchrnull s c = or_end (strchr s c)

abbrev pub strstrnull : Bytes → Bytes → Bytes
strstrnull s what = or_end (strstr s what)

-- `strextract(begin, end)` copies the bytes between two pointers into one string. Every caller
-- passes an `end` that is a suffix of `begin`, so the assertion `begin <= end` holds.
unfoldable pub strextract : Bytes → Bytes → Bytes
strextract begin end = take (length begin - length end) begin

-- `strextract` up to a suffix is the text before the suffix.
pub strextract-append : (before end : Bytes) → strextract (before ++ end) end ≡ before
unfolding strextract
strextract-append before end =
    let n : length (before ++ end) - length end ≡ length before =
      omega (arith, length-append before end) in
    rw n (take-length_append before end)

-- `strbeginswith` decides whether a text is `what` with something behind it.
pub strbeginswith_iff :
    (s what : Bytes) → (strbeginswith s what ≡ true) ↔ ((rest : Bytes) × (s ≡ what ++ rest))
unfolding strbeginswith
strbeginswith_iff s [] = (λ h. (s, refl), λ h. refl)
strbeginswith_iff [] (w ∷ what) = (λ h. cc, λ (rest, e). cc)
strbeginswith_iff (c ∷ s) (w ∷ what) = (
  λ h.
      let both = and-eq_true (c == w) _ h in
      let (rest, e) = (strbeginswith_iff s what).0 both.1 in (rest, cc ((==_iff c w).0 both.0, e)),
  λ (rest, e).
      let inner = (strbeginswith_iff s what).1 (rest, ap tail e) in
      rw ((==_iff c w).1 (ap peek e), inner),
)

-- The first place of `what` in `s`: the bytes before it, such that `what` begins at no earlier one.
pub data FirstAt (what : Bytes) : Bytes → Bytes → Type 0 where
  here : {s : Bytes} → strbeginswith s what ≡ true → FirstAt what s s
  later :
      {c : ℕ} {s r : Bytes}
      → strbeginswith (c ∷ s) what ≡ false
      → FirstAt what s r
      → FirstAt what (c ∷ s) r

-- What `strstr` finds is the first place: `what` begins there, and at no byte before it.
pub strstr-FirstAt : (s what : Bytes) {r : Bytes} → strstr s what ≡ some r → FirstAt what s r
unfolding strstr
strstr-FirstAt [] what {r} h = elim (Bool-cases (strbeginswith [] what)) [
  | inl b ↦
      let e : [] ≡ r = Option.some-injective _ _ (rw b at h) in subst (FirstAt what []) e (here b)
  | inr b ↦ absurd (ground arith)
]
strstr-FirstAt (c ∷ s) what {r} h = elim (Bool-cases (strbeginswith (c ∷ s) what)) [
  | inl b ↦
      let e : c ∷ s ≡ r = Option.some-injective _ _ (rw b at h) in
      subst (FirstAt what (c ∷ s)) e (here b)
  | inr b ↦ later b (strstr-FirstAt s what (rw b at h))
]

-- Where `strstr` finds nothing, `what` begins at no suffix.
pub strstr-none :
    (pre s what : Bytes) → strstr (pre ++ s) what ≡ none → strbeginswith s what ≡ false
unfolding strstr
strstr-none [] [] what h = ground arith
strstr-none [] (c ∷ s) what h = ground arith
strstr-none (c ∷ pre) s what h = strstr-none pre s what (ground arith)

begins_nocase-map :
    (s needle : Bytes) → strbeginswith (map tolower s) (map tolower needle) ≡ begins_nocase s needle
unfolding strbeginswith begins_nocase
begins_nocase-map s [] = refl
begins_nocase-map [] (n ∷ needle) = refl
begins_nocase-map (c ∷ s) (n ∷ needle) = rw (begins_nocase-map s needle)

-- `strcasestr` is `strstr` up to the case of both texts, for every needle that is not empty.
pub strcasestr-strstr :
    (s needle : Bytes)
    → needle ≢ []
    → Option.map (map tolower) (strcasestr s needle) ≡ strstr (map tolower s) (map tolower needle)
unfolding strcasestr strstr
strcasestr-strstr s [] ne = absurd (ne refl)
strcasestr-strstr [] (n ∷ needle) ne = refl
strcasestr-strstr (c ∷ s) (n ∷ needle) ne =
    ground (arith, begins_nocase-map (c ∷ s) (n ∷ needle), strcasestr-strstr s (n ∷ needle) ne)
