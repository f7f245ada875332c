-- ===== src/Json.antt =====
-- src/json.c: the serializer. Its buffer is the text that it holds, and `comma` says whether a comma
-- is due before the next value. `decimal` is how printf writes a number.
pub mod Print
pub mod Escape
mod Tests
use musicd.Base.{
  ℕ, zero, suc, Bool, true, false, List, [], ◌∷◌, ◌++◌, Option, none, some, ◌==◌, if◌then◌else◌,
  Bytes, codes, ℤ,
}

pub record Json : Type 0 where
  pub buf : Bytes
  pub comma : Bool

unfoldable pub comma : Json → Json
comma json = if json.comma then record json { buf = json.buf ++ codes ","; comma = false } else json

unfoldable pub json_init : Json
json_init = record { buf = []; comma = false }

unfoldable pub json_object_begin : Json → Json
json_object_begin json = let j = comma json in record j { buf = j.buf ++ codes "{" }

unfoldable pub json_object_end : Json → Json
json_object_end json = record { buf = json.buf ++ codes "}"; comma = true }

unfoldable pub json_array_begin : Json → Json
json_array_begin json = let j = comma json in record j { buf = j.buf ++ codes "[" }

unfoldable pub json_array_end : Json → Json
json_array_end json = record { buf = json.buf ++ codes "]"; comma = true }

unfoldable pub json_define : Json → Bytes → Json
json_define json name =
    let j = comma json in record j { buf = j.buf ++ (codes "\"" ++ (name ++ codes "\":")) }

unfoldable pub json_bool : Json → Bool → Json
json_bool json b =
    let j = comma json in
    record { buf = j.buf ++ (if b then codes "true" else codes "false"); comma = true }

-- `json_int` and `json_int64`.
unfoldable pub json_int : (ℤ → Bytes) → Json → ℤ → Json
json_int decimal json i = let j = comma json in record { buf = j.buf ++ decimal i; comma = true }

-- `escape_from` and `escape_to`, entry by entry.
abbrev pub escapes : List (ℕ × ℕ)
escapes =
    (b'"', b'"')
    ∷ (b'\\', b'\\')
    ∷ (8, b'b')
    ∷ (12, b'f')
    ∷ (10, b'n')
    ∷ (13, b'r')
    ∷ (9, b't')
    ∷ []

-- What the loop over `i` finds.
unfoldable pub find_escape : ℕ → List (ℕ × ℕ) → Option ℕ
find_escape c [] = none
find_escape c ((from, to) ∷ rest) = if c == from then some to else find_escape c rest

unfoldable pub escape : Bytes → Bytes
escape [] = []
escape (c ∷ string) = elim (find_escape c escapes) [
  | some to ↦ b'\\' ∷ to ∷ escape string
  | none ↦ c ∷ escape string
]

unfoldable pub json_string : Json → Option Bytes → Json
json_string json string =
    let j = comma json in
    let inner : Bytes = elim string [ none ↦ [] | some text ↦ escape text ] in
    record { buf = ((j.buf ++ codes "\"") ++ inner) ++ codes "\""; comma = true }
