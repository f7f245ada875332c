-- ===== src/Http/Encode.antt =====
-- Percent encoding read back by `decode_url`.

use native.Mathlib.Omega.{arith}
use musicd.Base.{
  ℕ, ◌+◌, ◌*◌, ◌<◌, ◌/◌, ◌%◌, ◌≡◌, refl, ap, ◌∙◌, Bool, true, false, ◌&&◌, ◌||◌, [], ◌∷◌, ◌++◌,
  some, inl, inr, ltb, leb, ◌==◌, if◌then◌else◌, Bytes, All, Bool-cases,
}
use musicd.Http.{isxdigit, hex_value, push, decode_url}

abbrev pub hex_digit : ℕ → ℕ
hex_digit n = if ltb n 10 then b'0' + n else 55 + n

-- A byte that may stand for itself.
abbrev pub unreserved : ℕ → Bool
unreserved c =
    (leb b'0' c && leb c b'9') || ((leb b'A' c && leb c b'Z') || (leb b'a' c && leb c b'z'))

unfoldable pub encode_url : Bytes → Bytes
encode_url [] = []
encode_url (c ∷ t) =
    let rest = encode_url t in
    if unreserved c then c ∷ rest else b'%' ∷ hex_digit (c / 16) ∷ hex_digit (c % 16) ∷ rest

-- Where an argument ends.
abbrev pub IsEnd : Bytes → Type 0
IsEnd [] = Unit
IsEnd (c ∷ rest) = c ≡ b'&'

hex_digit-isxdigit : (n : ℕ) → n < 16 → isxdigit (hex_digit n) ≡ true
hex_digit-isxdigit n h = ground arith

hex_value-hex_digit : (n : ℕ) → n < 16 → hex_value (hex_digit n) ≡ n
hex_value-hex_digit n h = ground arith

record IsOrdinary (c : ℕ) : Type 0 where
  no_end : (c == b'&') ≡ false
  no_percent : (c == b'%') ≡ false
  no_plus : (c == b'+') ≡ false

unreserved-IsOrdinary : (c : ℕ) → unreserved c ≡ true → IsOrdinary c
unreserved-IsOrdinary c h = record {
  no_end = ground arith;
  no_percent = ground arith;
  no_plus = ground arith;
}

decode_url-plain :
    (c : ℕ) (p : Bytes) → unreserved c ≡ true → decode_url (c ∷ p) ≡ push c (decode_url p)
unfolding decode_url
decode_url-plain c [] h =
    let o = unreserved-IsOrdinary c h in rw o.no_end (rw o.no_percent (rw o.no_plus refl))
decode_url-plain c (d ∷ []) h =
    let o = unreserved-IsOrdinary c h in rw o.no_end (rw o.no_percent (rw o.no_plus refl))
decode_url-plain c (d ∷ e ∷ p) h =
    let o = unreserved-IsOrdinary c h in rw o.no_end (rw o.no_percent (rw o.no_plus refl))

decode_url-hex :
    (c : ℕ) (p : Bytes)
    → c < 256
    → decode_url (b'%' ∷ hex_digit (c / 16) ∷ hex_digit (c % 16) ∷ p) ≡ push c (decode_url p)
unfolding decode_url
decode_url-hex c p h =
    let high : c / 16 < 16 = omega arith in
    let low : c % 16 < 16 = omega arith in
    let both : (c / 16) * 16 + c % 16 ≡ c = omega arith in
    rw (hex_digit-isxdigit (c / 16) high) (
      rw (hex_digit-isxdigit (c % 16) low) (
        rw (hex_value-hex_digit (c / 16) high)
          (rw (hex_value-hex_digit (c % 16) low) (rw both refl))))

decode_url-end : (rest : Bytes) → IsEnd rest → decode_url rest ≡ (some [], rest)
unfolding decode_url
decode_url-end [] e = refl
decode_url-end (c ∷ []) e = rw e refl
decode_url-end (c ∷ d ∷ []) e = rw e refl
decode_url-end (c ∷ d ∷ f ∷ rest) e = rw e refl

-- A text of bytes, percent encoded, is read back by `decode_url`, which then stands where the
-- argument ends: at the end of the arguments or at an ampersand.
pub decode_url-encode_url :
    (t rest : Bytes)
    → All (λ c. c < 256) t
    → IsEnd rest
    → decode_url (encode_url t ++ rest) ≡ (some t, rest)
unfolding encode_url
decode_url-encode_url [] rest h e = decode_url-end rest e
decode_url-encode_url (c ∷ t) rest (b, h) e = elim (Bool-cases (unreserved c)) [
  | inl plain ↦ rw plain (
      decode_url-plain c (encode_url t ++ rest) plain
      ∙ ap (push c) (decode_url-encode_url t rest h e))
  | inr other ↦
      rw other
        (decode_url-hex c (encode_url t ++ rest) b ∙ ap (push c) (decode_url-encode_url t rest h e))
]
