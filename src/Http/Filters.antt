-- ===== src/Http/Filters.antt =====
-- src/protocol_http.c: the query that the arguments of a request make.

use musicd.Base.{
  ℕ, zero, suc, ◌+◌, ◌<◌, ◌≤◌, ◌≡◌, refl, ap, ◌∙◌, true, false, List, [], ◌∷◌, ◌++◌, some, inl, inr,
  arith, ◌==◌, Bytes, All, Bool-cases, Option-cases, length, length-append,
}
use musicd.Memory.{Run, done}
use musicd.Queries.{
  Field, none_field, trackid, artistid, albumid, title, artist, album, track, duration, tracks,
  directory, directoryprefix, all, Query, number, name_of, query_field_from_string, query_filter,
}
use musicd.Queries.Fields.{query_field_from_string-name_of}
use musicd.Http.{
  Request, decode_url, upto_nul, upto_delimiter, skip_value, apply_arg, filters_loop,
  parse_query_filters,
}
use musicd.Http.Encode.{encode_url, IsEnd, decode_url-encode_url}

decode_url-shorter : (p : Bytes) → length ((decode_url p).1) ≤ length p
unfolding decode_url
decode_url-shorter [] = omega arith
decode_url-shorter (c ∷ []) = ground arith
decode_url-shorter (c ∷ d ∷ []) = ground (arith, decode_url-shorter (d ∷ []))
decode_url-shorter (c ∷ d ∷ e ∷ p) =
    ground (arith, decode_url-shorter (d ∷ e ∷ p), decode_url-shorter p)

upto_delimiter-shorter : (p : Bytes) → length ((upto_delimiter p).1) ≤ length p
unfolding upto_delimiter
upto_delimiter-shorter [] = omega arith
upto_delimiter-shorter (c ∷ p) = ground (arith, upto_delimiter-shorter p)

skip_value-shorter : (p : Bytes) → length (skip_value p) ≤ length p
unfolding skip_value
skip_value-shorter [] = omega arith
skip_value-shorter (c ∷ p) = ground (arith, skip_value-shorter p)

apply_arg-shorter :
    (name p : Bytes) (query : Query) → length ((apply_arg name p query).1) ≤ length p
unfolding apply_arg
apply_arg-shorter name p query = elim (Bool-cases (number (query_field_from_string name) == 0)) [
  | inl e ↦ rw e (skip_value-shorter p)
  | inr e ↦ rw e (decode_url-shorter p)
]

-- The filters set by the arguments, each with its text.
abbrev pub IsText : Bytes → Type 0
IsText = All (λ c. (0 < c) × (c < 256))

abbrev pub IsFilter : Field × Bytes → Type 0
IsFilter (field, text) = ((number field == 0) ≡ false) × IsText text

abbrev pub ampersand : Bytes → Bytes
ampersand [] = []
ampersand (c ∷ s) = b'&' ∷ c ∷ s

abbrev pub print_filters : List (Field × Bytes) → Bytes
print_filters [] = []
print_filters ((field, text) ∷ filters) =
    name_of field ++ (b'=' ∷ (encode_url text ++ ampersand (print_filters filters)))

abbrev pub set_filters : List (Field × Bytes) → Query → Query
set_filters [] query = query
set_filters ((field, text) ∷ filters) query =
    set_filters filters (query_filter query field (some text))

upto_delimiter-name_of :
    (f : Field) (p : Bytes) → upto_delimiter (name_of f ++ (b'=' ∷ p)) ≡ (name_of f, b'=' ∷ p)
unfolding upto_delimiter name_of
upto_delimiter-name_of none_field p = refl
upto_delimiter-name_of trackid p = refl
upto_delimiter-name_of artistid p = refl
upto_delimiter-name_of albumid p = refl
upto_delimiter-name_of title p = refl
upto_delimiter-name_of artist p = refl
upto_delimiter-name_of album p = refl
upto_delimiter-name_of track p = refl
upto_delimiter-name_of duration p = refl
upto_delimiter-name_of tracks p = refl
upto_delimiter-name_of directory p = refl
upto_delimiter-name_of directoryprefix p = refl
upto_delimiter-name_of all p = refl

upto_nul-text : (t : Bytes) → IsText t → upto_nul t ≡ t
unfolding upto_nul
upto_nul-text [] h = refl
upto_nul-text (c ∷ t) ((p, b), h) = ground (arith, upto_nul-text t h)

IsText-bytes : (t : Bytes) → IsText t → All (λ c. c < 256) t
IsText-bytes [] h = tt
IsText-bytes (c ∷ t) ((p, b), h) = (b, IsText-bytes t h)

ampersand-IsEnd : (s : Bytes) → IsEnd (ampersand s)
ampersand-IsEnd [] = tt
ampersand-IsEnd (c ∷ s) = refl

apply_arg-filter :
    (field : Field) (text rest : Bytes) (query : Query)
    → IsFilter (field, text)
    → apply_arg (name_of field) (encode_url text ++ ampersand rest) query
      ≡ (query_filter query field (some text), ampersand rest)
unfolding apply_arg
apply_arg-filter field text rest query (named, h) = rw (query_field_from_string-name_of field) (
    rw named (
      rw (decode_url-encode_url text (ampersand rest) (IsText-bytes text h) (ampersand-IsEnd rest))
        (rw (upto_nul-text text h) (
          ap (λ f. (query_filter query f (some text), ampersand rest))
            (query_field_from_string-name_of field)))))

ampersand-long : (s : Bytes) → length s ≤ length (ampersand s)
ampersand-long [] = omega arith
ampersand-long (c ∷ s) = omega arith

-- One round of the loop, when the name that it reads ends at an equals sign.
continue : ℕ → Query × Bytes → Run Query
continue fuel (query, []) = done query
continue fuel (query, d ∷ p) = filters_loop fuel p query

round : ℕ → Query → Bytes × Bytes → Run Query
round fuel query (name, []) = done query
round fuel query (name, c ∷ p) = elim (c == b'&') [
  | true ↦ filters_loop fuel p query
  | false ↦ continue fuel (apply_arg name p query)
]

filters_loop-continue :
    (fuel : ℕ) (name p q : Bytes) (query : Query)
    → upto_delimiter p ≡ (name, b'=' ∷ q)
    → filters_loop (suc fuel) p query ≡ continue fuel (apply_arg name q query)
unfolding filters_loop continue round apply_arg upto_delimiter
filters_loop-continue fuel name p q query e = ap (round fuel query) e

continue-ampersand :
    (fuel : ℕ) (query : Query) (s : Bytes)
    → 0 < fuel
    → continue fuel (query, ampersand s) ≡ filters_loop fuel s query
unfolding continue filters_loop upto_delimiter
continue-ampersand zero query s h = absurd (omega arith)
continue-ampersand (suc fuel) query [] h = refl
continue-ampersand (suc fuel) query (c ∷ s) h = refl

filters_loop-print_filters :
    (fuel : ℕ) (filters : List (Field × Bytes)) (query : Query)
    → All IsFilter filters
    → length (print_filters filters) < fuel
    → filters_loop fuel (print_filters filters) query ≡ done (set_filters filters query)
filters_loop-print_filters zero filters query h k = absurd (omega arith)
filters_loop-print_filters (suc fuel) [] query h k = unfold filters_loop upto_delimiter in refl
filters_loop-print_filters (suc fuel) ((field, text) ∷ filters) query (f, h) k =
    let rest = print_filters filters in
    let q = encode_url text ++ ampersand rest in
    let long : length rest < fuel = omega (
      arith,
      length-append (name_of field) (b'=' ∷ q),
      length-append (encode_url text) (ampersand rest),
      ampersand-long rest,
      k,
    ) in
    filters_loop-continue fuel (name_of field) (name_of field ++ (b'=' ∷ q)) q query
      (upto_delimiter-name_of field q)
    ∙ ap (continue fuel) (apply_arg-filter field text rest query f)
    ∙ continue-ampersand fuel (query_filter query field (some text)) rest (omega (arith, long))
    ∙ filters_loop-print_filters fuel filters (query_filter query field (some text)) h long

abbrev Ends : Run Query → Type 0
Ends run = (query : Query) × (run ≡ done query)

module _ (fuel : ℕ)
    (ends : (p : Bytes) (query : Query) → length p < fuel → Ends (filters_loop fuel p query)) where
  continue-Ends : (r : Query × Bytes) → length r.1 ≤ fuel → Ends (continue fuel r)
  unfolding continue
  continue-Ends (query, []) h = (query, refl)
  continue-Ends (query, d ∷ p) h = ends p query (omega arith)

  round-Ends : (query : Query) (r : Bytes × Bytes) → length r.1 ≤ fuel → Ends (round fuel query r)
  unfolding round
  round-Ends query (name, []) h = (query, refl)
  round-Ends query (name, c ∷ p) h = elim (Bool-cases (c == b'&')) [
    | inl e ↦ rw (e, round) (ends p query (omega arith))
    | inr e ↦
        rw (e, round)
          (continue-Ends (apply_arg name p query) (omega (arith, apply_arg-shorter name p query)))
  ]

filters_loop-Ends :
    (fuel : ℕ) (p : Bytes) (query : Query) → length p < fuel → Ends (filters_loop fuel p query)
unfolding filters_loop round continue
filters_loop-Ends zero p query h = absurd (omega arith)
filters_loop-Ends (suc fuel) p query h =
    round-Ends fuel (filters_loop-Ends fuel) query (upto_delimiter p)
      (omega (arith, upto_delimiter-shorter p))

-- `parse_query_filters` ends on every request, also on arguments that are not well formed.
pub parse_query_filters-ends :
    (http : Request) (query : Query)
    → (query' : Query) × (parse_query_filters http query ≡ done query')
unfolding parse_query_filters
parse_query_filters-ends http query = elim (Option-cases http.args) [
  | inl e ↦ (query, rw e refl)
  | inr (args, e) ↦
      let (query', ended) = filters_loop-Ends (length args + 1) args query (omega arith) in
      (query', rw e ended)
]

-- Arguments written as name=value pairs with ampersands between, for any fields and any percent
-- encoded texts without NUL, set on the query exactly these filters in their order.
pub parse_query_filters-print_filters :
    (http : Request) (filters : List (Field × Bytes)) (query : Query)
    → http.args ≡ some (print_filters filters)
    → All IsFilter filters
    → parse_query_filters http query ≡ done (set_filters filters query)
unfolding parse_query_filters
parse_query_filters-print_filters http filters query e h =
    rw e (
      filters_loop-print_filters (length (print_filters filters) + 1) filters query h (omega arith))
