-- ===== src/Json/Tests.antt =====
-- A value written by the serializer, and instances of the theorems.
use musicd.Base.{
  ◌≡◌, refl, true, false, ◌∷◌, ◌++◌, some, Bytes, codes, ℤ, pos, is_zero, if◌then◌else◌,
}
use musicd.Json.{
  json_object_begin, json_object_end, json_array_begin, json_array_end, json_define, json_bool,
  json_int, comma, escape, find_escape, Json, json_init, json_string,
}
use musicd.Json.Print.{
  Value, text, truth, number, array, object, no_items, item, no_members, member, emit, emit_items,
  emit_members, print, after, separator, emit-print,
}
use musicd.Json.Escape.{read_text, read_text-json_string}

decimal : ℤ → Bytes
decimal i = if is_zero i then codes "0" else codes "1"

-- {"tracks":["a\"b",true],"total":0}
tracks : Value
tracks = object (
    member (codes "tracks") (array (item (text (some (codes "a\"b"))) (item (truth true) no_items)))
      (member (codes "total") (number (pos 0)) no_members))

written : (emit decimal tracks json_init).buf ≡ codes "{\"tracks\":[\"a\\\"b\",true],\"total\":0}"
unfolding decimal tracks emit emit_items emit_members json_init json_object_begin json_object_end
    json_array_begin json_array_end json_define json_bool json_int json_string comma escape
    find_escape
written = refl

emit-print_example : emit decimal tracks json_init ≡ after json_init (print decimal tracks)
emit-print_example = emit-print decimal tracks json_init

abbrev begun : Json
begun = record { buf = codes "["; comma = true }

read_text-json_string_example :
    (written : Bytes) × ((json_string begun (some (codes "a\"\\"))).buf
      ≡ codes "[" ++ (separator true ++ (b'"' ∷ written)))
    × (read_text false (written ++ codes "]") ≡ some (codes "a\"\\", codes "]"))
read_text-json_string_example = read_text-json_string begun (codes "a\"\\") (codes "]")
