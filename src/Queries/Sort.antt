-- ===== src/Queries/Sort.antt =====
-- src/query.c: sorting rules as they are written in the API, names with commas between, a minus
-- before a name for descending order.
use mathlib.Core.List.{foldl}
use musicd.Base.{
  ℕ, zero, suc, ◌+◌, ◌≤◌, ◌<◌, ◌≡◌, refl, sym, ap, ◌∙◌, Bool, true, false, not, ◌&&◌, List, [], ◌∷◌,
  ◌++◌, ◌⊎◌, inl, inr, ◌==◌, arith, Bytes, codes, if◌then◌else◌, append-nil, length, length-append,
  All,
}
use musicd.Queries.Fields.{query_field_from_string-name_of}
use musicd.Queries.{
  Field, none_field, trackid, artistid, albumid, title, artist, album, track, duration, tracks,
  directory, directoryprefix, all, number, name_of, query_field_from_string, Query, query_sort,
  upto_comma, skip, sort_rules, query_sort_from_string,
}

pub record Rule : Type 0 where
  pub field : Field
  pub descending : Bool

abbrev pub IsNamed : Rule → Type 0
IsNamed r = (number r.field == 0) ≡ false

pub print_rule : Rule → Bytes
print_rule r = (if r.descending then codes "-" else []) ++ name_of r.field

pub print_rules : List Rule → Bytes
print_rules [] = []
print_rules (r ∷ []) = print_rule r
print_rules (r ∷ s ∷ rules) = print_rule r ++ (b',' ∷ print_rules (s ∷ rules))

abbrev pub apply_rule : Query → Rule → Query
apply_rule query r = query_sort query r.field r.descending

comma_free : Bytes → Bool
comma_free [] = true
comma_free (c ∷ s) = not (c == b',') && comma_free s

-- What may follow a name.
abbrev Ends : Bytes → Type 0
Ends rest = (rest ≡ []) ⊎ ((s : Bytes) × (rest ≡ b',' ∷ s))

upto_comma-append :
    (name rest : Bytes)
    → comma_free name ≡ true
    → Ends rest
    → upto_comma (name ++ rest) ≡ (name, rest)
unfolding upto_comma comma_free
upto_comma-append [] rest h (inl e) = rw e
upto_comma-append [] rest h (inr (s, e)) = rw e
upto_comma-append (c ∷ name) rest h e = ground (arith, upto_comma-append name rest)

-- A name is not empty, does not begin with a minus and has no comma.
record Plain (name : Bytes) : Type 0 where
  first : ℕ
  others : Bytes
  shape : name ≡ first ∷ others
  no_minus : (first == b'-') ≡ false
  no_comma : comma_free name ≡ true

name_of-Plain : (f : Field) → (number f == 0) ≡ false → Plain (name_of f)
unfolding name_of comma_free
name_of-Plain none_field h = absurd (ground arith)
name_of-Plain trackid h = record {
  first = _;
  others = _;
  shape = refl;
  no_minus = refl;
  no_comma = refl;
}
name_of-Plain artistid h = record {
  first = _;
  others = _;
  shape = refl;
  no_minus = refl;
  no_comma = refl;
}
name_of-Plain albumid h = record {
  first = _;
  others = _;
  shape = refl;
  no_minus = refl;
  no_comma = refl;
}
name_of-Plain title h = record {
  first = _;
  others = _;
  shape = refl;
  no_minus = refl;
  no_comma = refl;
}
name_of-Plain artist h = record {
  first = _;
  others = _;
  shape = refl;
  no_minus = refl;
  no_comma = refl;
}
name_of-Plain album h = record {
  first = _;
  others = _;
  shape = refl;
  no_minus = refl;
  no_comma = refl;
}
name_of-Plain track h = record {
  first = _;
  others = _;
  shape = refl;
  no_minus = refl;
  no_comma = refl;
}
name_of-Plain duration h = record {
  first = _;
  others = _;
  shape = refl;
  no_minus = refl;
  no_comma = refl;
}
name_of-Plain tracks h = record {
  first = _;
  others = _;
  shape = refl;
  no_minus = refl;
  no_comma = refl;
}
name_of-Plain directory h = record {
  first = _;
  others = _;
  shape = refl;
  no_minus = refl;
  no_comma = refl;
}
name_of-Plain directoryprefix h = record {
  first = _;
  others = _;
  shape = refl;
  no_minus = refl;
  no_comma = refl;
}
name_of-Plain all h = record {
  first = _;
  others = _;
  shape = refl;
  no_minus = refl;
  no_comma = refl;
}

-- A round of the loop on a text that begins with a byte.
sort_rules-round :
    (fuel : ℕ) (query : Query) (c : ℕ) (s name rest : Bytes) (f : Field)
    → upto_comma (skip b'-' (c ∷ s)) ≡ (name, rest)
    → query_field_from_string name ≡ f
    → (number f == 0) ≡ false
    → sort_rules (suc fuel) query (c ∷ s)
      ≡ sort_rules fuel (query_sort query f (c == b'-')) (skip b',' rest)
unfolding sort_rules
sort_rules-round fuel query c s name rest f split found named =
    rw (split, sort_rules) (rw (found, sort_rules) (rw named refl))

-- One rule, whatever stands behind it.
sort_rules-print_rule :
    (fuel : ℕ) (query : Query) (f : Field) (descending : Bool) (rest : Bytes)
    → (number f == 0) ≡ false
    → Ends rest
    → sort_rules
        (suc fuel)
        query
        (print_rule (record { field = f; descending = descending }) ++ rest)
      ≡ sort_rules fuel (query_sort query f descending) (skip b',' rest)
sort_rules-print_rule fuel query f true rest named ends =
    let plain = name_of-Plain f named in
    unfold print_rule in
    sort_rules-round fuel query b'-' (name_of f ++ rest) (name_of f) rest f
      (upto_comma-append (name_of f) rest plain.no_comma ends) (query_field_from_string-name_of f)
      named
sort_rules-print_rule fuel query f false rest named ends =
    let plain = name_of-Plain f named in
    let text : name_of f ++ rest ≡ plain.first ∷ (plain.others ++ rest) =
      ap (λ n. n ++ rest) plain.shape in
    let whole : skip b'-' (plain.first ∷ (plain.others ++ rest)) ≡ name_of f ++ rest =
      rw (plain.no_minus, skip) (sym text) in
    let split : upto_comma (skip b'-' (plain.first ∷ (plain.others ++ rest))) ≡ (name_of f, rest) =
      ap upto_comma whole ∙ upto_comma-append (name_of f) rest plain.no_comma ends in
    let round =
      sort_rules-round fuel query plain.first (plain.others ++ rest) (name_of f) rest f split
        (query_field_from_string-name_of f) named in
    unfold print_rule in
    ap (sort_rules (suc fuel) query) text
    ∙ round
    ∙ ap (λ d. sort_rules fuel (query_sort query f d) (skip b',' rest)) plain.no_minus

sort_rules-print_rules :
    (fuel : ℕ) (query : Query) (rules : List Rule)
    → All IsNamed rules
    → length rules < fuel
    → sort_rules fuel query (print_rules rules) ≡ (foldl apply_rule query rules, true)
unfolding print_rules
sort_rules-print_rules zero query rules named h = absurd (omega arith)
sort_rules-print_rules (suc fuel) query [] named h = unfold sort_rules in refl
sort_rules-print_rules (suc fuel) query (r ∷ []) named h =
    ap (sort_rules (suc fuel) query) (sym (append-nil (print_rule r)))
    ∙ sort_rules-print_rule fuel query r.field r.descending [] named.0 (inl refl)
    ∙ sort_rules-print_rules fuel (apply_rule query r) [] tt (omega arith)
sort_rules-print_rules (suc fuel) query (r ∷ s ∷ rules) named h =
    sort_rules-print_rule fuel query r.field r.descending (b',' ∷ print_rules (s ∷ rules)) named.0
      (inr (_, refl))
    ∙ sort_rules-print_rules fuel (apply_rule query r) (s ∷ rules) named.1 (omega arith)

length-print_rules :
    (rules : List Rule) → All IsNamed rules → length rules ≤ length (print_rules rules)
unfolding print_rules
length-print_rules [] named = omega arith
length-print_rules (r ∷ []) named =
    unfold print_rule in
    omega (
      arith,
      length-append (if r.descending then codes "-" else []) (name_of r.field),
      ap length (name_of-Plain r.field named.0).shape,
    )
length-print_rules (r ∷ s ∷ rules) named = omega (
  arith,
  length-append (print_rule r) (b',' ∷ print_rules (s ∷ rules)),
  length-print_rules (s ∷ rules) named.1,
)

-- Any list of rules on named fields, written with commas between and a minus before the name for a
-- descending one, is accepted and sorts by exactly these rules in this order.
pub query_sort_from_string-print_rules :
    (query : Query) (rules : List Rule)
    → All IsNamed rules
    → query_sort_from_string query (print_rules rules) ≡ (foldl apply_rule query rules, true)
unfolding query_sort_from_string
query_sort_from_string-print_rules query rules named =
    sort_rules-print_rules (length (print_rules rules) + 1) query rules named
      (omega (arith, length-print_rules rules named))
