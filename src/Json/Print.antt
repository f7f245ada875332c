-- ===== src/Json/Print.antt =====
-- The calls of the serializer for a value, against the text of the value written by its structure.
use mathlib.Core.List
use musicd.Base.{
  Bool-cases, inl, inr, ◌≡◌, refl, sym, ap, ◌∙◌, Bool, true, false, [], ◌++◌, Option, none, some,
  if◌then◌else◌, Bytes, codes, ℤ,
}
use musicd.Json.{
  Json, comma, json_object_begin, json_object_end, json_array_begin, json_array_end, json_define,
  json_bool, json_int, json_string, escape,
}

mutual
  pub data Value : Type 0 where
    text : Option Bytes → Value
    truth : Bool → Value
    number : ℤ → Value
    array : Items → Value
    object : Members → Value

  pub data Items : Type 0 where
    no_items : Items
    item : Value → Items → Items

  pub data Members : Type 0 where
    no_members : Members
    member : Bytes → Value → Members → Members

-- What a client of the serializer calls for a value.
unfoldable mutual
  pub emit : (ℤ → Bytes) → Value → Json → Json
  emit decimal (text t) json = json_string json t
  emit decimal (truth b) json = json_bool json b
  emit decimal (number i) json = json_int decimal json i
  emit decimal (array vs) json = json_array_end (emit_items decimal vs (json_array_begin json))
  emit decimal (object ms) json = json_object_end (emit_members decimal ms (json_object_begin json))

  pub emit_items : (ℤ → Bytes) → Items → Json → Json
  emit_items decimal no_items json = json
  emit_items decimal (item v vs) json = emit_items decimal vs (emit decimal v json)

  pub emit_members : (ℤ → Bytes) → Members → Json → Json
  emit_members decimal no_members json = json
  emit_members decimal (member name v ms) json =
      emit_members decimal ms (emit decimal v (json_define json name))

abbrev pub separator : Bool → Bytes
separator due = if due then codes "," else []

abbrev pub print_name : Bytes → Bytes
print_name name = codes "\"" ++ (name ++ codes "\":")

-- The text of a value: commas between the items and the members, and nowhere else.
unfoldable mutual
  pub print : (ℤ → Bytes) → Value → Bytes
  print decimal (text none) = codes "\"\""
  print decimal (text (some t)) = codes "\"" ++ (escape t ++ codes "\"")
  print decimal (truth b) = if b then codes "true" else codes "false"
  print decimal (number i) = decimal i
  print decimal (array vs) = codes "[" ++ (print_items decimal false vs ++ codes "]")
  print decimal (object ms) = codes "{" ++ (print_members decimal false ms ++ codes "}")

  -- With a comma before the first if `due`.
  pub print_items : (ℤ → Bytes) → Bool → Items → Bytes
  print_items decimal due no_items = []
  print_items decimal due (item v vs) =
      separator due ++ (print decimal v ++ print_items decimal true vs)

  pub print_members : (ℤ → Bytes) → Bool → Members → Bytes
  print_members decimal due no_members = []
  print_members decimal due (member name v ms) =
      separator due ++ (print_name name ++ (print decimal v ++ print_members decimal true ms))

abbrev pub after : Json → Bytes → Json
after json t = record { buf = json.buf ++ (separator json.comma ++ t); comma = true }

due_items : Items → Bool → Bool
due_items no_items due = due
due_items (item v vs) due = true

due_members : Members → Bool → Bool
due_members no_members due = due
due_members (member name v ms) due = true

-- Two states of the serializer with the same parts.
same_json :
    {a b : Bytes} {c : Bool}
    → a ≡ b
    → ◌≡◌ {A = Json} (record { buf = a; comma = c }) (record { buf = b; comma = c })
same_json {c} e = ap (λ t. record { buf = t; comma = c }) e

comma_lem :
    (json : Json) → comma json ≡ record { buf = json.buf ++ separator json.comma; comma = false }
unfolding comma
comma_lem json = elim (Bool-cases json.comma) [
  | inl due ↦ rw due refl
  | inr not_due ↦
      let none_due : json ≡ record { buf = json.buf; comma = false } =
        ap (λ b. record json { comma = b }) not_due in
      let nothing : comma json ≡ json = rw not_due refl in
      let padded : json.buf ≡ json.buf ++ separator json.comma =
        rw not_due (sym (List.append-nil json.buf)) in
      nothing ∙ none_due ∙ same_json padded
]

same_json2 :
    {a b : Bytes} {c d : Bool}
    → a ≡ b
    → c ≡ d
    → ◌≡◌ {A = Json} (record { buf = a; comma = c }) (record { buf = b; comma = d })
same_json2 e f = cc

due_items-kept : (vs : Items) → due_items vs true ≡ true
unfolding due_items
due_items-kept no_items = refl
due_items-kept (item v vs) = refl

due_members-kept : (ms : Members) → due_members ms true ≡ true
unfolding due_members
due_members-kept no_members = refl
due_members-kept (member name v ms) = refl

-- What an operation does that first calls `comma` and then appends.
after_comma :
    (json : Json) (t : Bytes) (c : Bool)
    → ◌≡◌ {A = Json}
        (record { buf = (comma json).buf ++ t; comma = c })
        (record { buf = json.buf ++ (separator json.comma ++ t); comma = c })
after_comma json t c = same_json (
    ap (λ (j : Json). j.buf ++ t) (comma_lem json)
    ∙ List.append_assoc json.buf (separator json.comma) t)

opened :
    (json : Json) (t : Bytes)
    → ◌≡◌ {A = Json}
        (record { buf = (comma json).buf ++ t; comma = (comma json).comma })
        (record { buf = json.buf ++ (separator json.comma ++ t); comma = false })
opened json t =
    ap (λ (j : Json). record { buf = j.buf ++ t; comma = j.comma }) (comma_lem json)
    ∙ same_json (List.append_assoc json.buf (separator json.comma) t)

abbrev begun : Json → Bytes → Json
begun json t = record { buf = json.buf ++ (separator json.comma ++ t); comma = false }

json_array_begin_lem : (json : Json) → json_array_begin json ≡ begun json (codes "[")
unfolding json_array_begin
json_array_begin_lem json = opened json (codes "[")

json_object_begin_lem : (json : Json) → json_object_begin json ≡ begun json (codes "{")
unfolding json_object_begin
json_object_begin_lem json = opened json (codes "{")

json_define_lem :
    (json : Json) (name : Bytes) → json_define json name ≡ begun json (print_name name)
unfolding json_define
json_define_lem json name = opened json (print_name name)

mutual
  unfolding json_string json_bool json_int json_array_end json_object_end due_items due_members emit
      emit_items emit_members print print_items print_members

  emit-after :
      (decimal : ℤ → Bytes) (v : Value) (json : Json)
      → emit decimal v json ≡ after json (print decimal v)
  emit-after decimal (text none) json = same_json (
      ap (λ (j : Json). ((j.buf ++ codes "\"") ++ []) ++ codes "\"") (comma_lem json)
      ∙ simp (List.append_assoc, List.append-nil))
  emit-after decimal (text (some t)) json = same_json (
      ap (λ (j : Json). ((j.buf ++ codes "\"") ++ escape t) ++ codes "\"") (comma_lem json)
      ∙ simp List.append_assoc)
  emit-after decimal (truth b) json =
      after_comma json (if b then codes "true" else codes "false") true
  emit-after decimal (number i) json = after_comma json (decimal i) true
  emit-after decimal (array vs) json = rw (json_array_begin_lem json) (
      rw (emit_items-print_items decimal vs (begun json (codes "[")))
        (same_json (simp List.append_assoc)))
  emit-after decimal (object ms) json = rw (json_object_begin_lem json) (
      rw (emit_members-print_members decimal ms (begun json (codes "{")))
        (same_json (simp List.append_assoc)))

  emit_items-print_items :
      (decimal : ℤ → Bytes) (vs : Items) (json : Json)
      → emit_items decimal vs json ≡ record {
        buf = json.buf ++ print_items decimal json.comma vs;
        comma = due_items vs json.comma;
      }
  emit_items-print_items decimal no_items json = same_json (sym (List.append-nil json.buf))
  emit_items-print_items decimal (item v vs) json = rw (emit-after decimal v json) (
      rw (emit_items-print_items decimal vs (after json (print decimal v)))
        (same_json2 (simp List.append_assoc) (due_items-kept vs)))

  emit_members-print_members :
      (decimal : ℤ → Bytes) (ms : Members) (json : Json)
      → emit_members decimal ms json ≡ record {
        buf = json.buf ++ print_members decimal json.comma ms;
        comma = due_members ms json.comma;
      }
  emit_members-print_members decimal no_members json = same_json (sym (List.append-nil json.buf))
  emit_members-print_members decimal (member name v ms) json = rw (json_define_lem json name) (
      rw (emit-after decimal v (begun json (print_name name))) (
        rw
          (emit_members-print_members decimal ms (record {
            buf = (json.buf ++ (separator json.comma ++ print_name name)) ++ print decimal v;
            comma = true;
          }))
          (same_json2 (simp List.append_assoc) (due_members-kept ms))))

-- The calls of the serializer for any value, however deep, append the text of the value: with a comma
-- before it if one was due, and commas between the items of arrays and the members of objects and
-- nowhere else; then a comma is due.
pub emit-print :
    (decimal : ℤ → Bytes) (v : Value) (json : Json)
    → emit decimal v json ≡ after json (print decimal v)
emit-print = emit-after
