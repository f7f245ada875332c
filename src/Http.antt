-- ===== src/Http.antt =====
-- src/protocol_http.c: the arguments and cookies of a request, percent decoding, and the query made
-- from the arguments. Texts are bytes without NUL; `scan_int` is `sscanf` with "=%PRId64", from the
-- byte behind the equals sign on, 0 where it reads no number.
pub mod Encode
pub mod Filters
pub mod Access
pub mod Reply
pub mod Process
pub mod Parse
pub mod Documents
pub mod Auth
pub mod Lists
pub mod Status
pub mod Media
pub mod Open
pub mod Answered
mod ListTests
mod MediaTests
mod Tests
use mathlib.Core.Option
use musicd.Base.{
  ℕ, zero, suc, ◌+◌, ◌*◌, ◌-◌, Bool, true, false, not, ◌&&◌, ◌||◌, List, [], ◌∷◌, ◌++◌, Option,
  none, some, ltb, leb, ◌==◌, if◌then◌else◌, Bytes, codes, length, drop, is_some, ℤ, pos,
  is_positive,
}
use musicd.Memory.{Run, done, fault, endless, ◌>>=◌}
use musicd.Strings.Search.{strbeginswith, strstr, strchrnull, strextract}
use musicd.Queries.{
  Query, Field, number, query_field_from_string, query_filter, query_limit, query_offset,
  query_sort_from_string,
}

pub record Request : Type 0 where
  pub args : Option Bytes
  pub cookies : Bytes

-- The loop of `args_ptr`; `start` says that `p` is where an argument begins.
unfoldable pub find_arg : Bytes → Bool → Bytes → Option Bytes
find_arg key start [] = if start && strbeginswith [] key then some (drop (length key) []) else none
find_arg key start (c ∷ p) =
    let rest = find_arg key (c == b'&') p in
    if start && strbeginswith (c ∷ p) key then some (drop (length key) (c ∷ p)) else rest

unfoldable pub args_ptr : Request → Bytes → Option Bytes
args_ptr http key = elim http.args [ none ↦ none | some args ↦ find_arg key true args ]

unfoldable pub args_int : (Bytes → ℤ) → Request → Bytes → ℤ
args_int scan_int http key = elim (args_ptr http key) [
  | none ↦ pos 0
  | some [] ↦ pos 0
  | some (c ∷ p) ↦ if c == b'=' then scan_int p else pos 0
]

unfoldable pub args_bool : Request → Bytes → Bool
args_bool http key = is_some (args_ptr http key)

-- `isxdigit`, and the value that `sscanf` reads with "%2hhx".
abbrev pub isxdigit : ℕ → Bool
isxdigit c =
    (leb b'0' c && leb c b'9') || ((leb b'A' c && leb c b'F') || (leb b'a' c && leb c b'f'))

abbrev pub hex_value : ℕ → ℕ
hex_value c = if leb c b'9' then c - b'0' else if leb c b'F' then c - 55 else c - 87

abbrev pub push : ℕ → Option Bytes × Bytes → Option Bytes × Bytes
push c (result, p) = (Option.map (λ t. c ∷ t) result, p)

-- The decoded bytes or NULL, and where `*p` stands then.
unfoldable pub decode_url : Bytes → Option Bytes × Bytes
decode_url [] = (some [], [])
decode_url (c ∷ []) =
    if c == b'&'
    then (some [], c ∷ [])
    else if not (c == b'%')
    then (some ((if c == b'+' then b' ' else c) ∷ []), [])
    else (none, [])
decode_url (c ∷ d ∷ []) =
    let rest = decode_url (d ∷ []) in
    if c == b'&'
    then (some [], c ∷ d ∷ [])
    else if not (c == b'%')
    then push (if c == b'+' then b' ' else c) rest
    else (none, d ∷ [])
decode_url (c ∷ d ∷ e ∷ p) =
    let rest = decode_url (d ∷ e ∷ p) in
    let behind = decode_url p in
    if c == b'&'
    then (some [], c ∷ d ∷ e ∷ p)
    else if not (c == b'%')
    then push (if c == b'+' then b' ' else c) rest
    else if isxdigit d && isxdigit e
    then push (hex_value d * 16 + hex_value e) behind
    else (none, d ∷ e ∷ p)

-- What a reader of the C string sees: it ends at a decoded NUL.
unfoldable pub upto_nul : Bytes → Bytes
upto_nul [] = []
upto_nul (c ∷ s) = let rest = upto_nul s in if c == 0 then [] else c ∷ rest

-- The loop of `args_str` is that of `decode_url`.
unfoldable pub args_str : Request → Bytes → Option Bytes
args_str http key = elim (args_ptr http key) [
  | none ↦ none
  | some [] ↦ some []
  | some (c ∷ p) ↦ if c == b'=' then Option.map upto_nul ((decode_url p).0) else some []
]

unfoldable pub cookie_get : Request → Bytes → Option Bytes
cookie_get http name =
    let search = name ++ codes "=" in
    elim (strstr http.cookies search) [
      | none ↦ none
      | some p ↦ let p1 = drop (length search) p in some (strextract p1 (strchrnull p1 b';'))
    ]

-- The text before the first `=` or `&`, and from there on.
unfoldable pub upto_delimiter : Bytes → Bytes × Bytes
upto_delimiter [] = ([], [])
upto_delimiter (c ∷ p) =
    let (name, rest) = upto_delimiter p in
    if c == b'=' || c == b'&' then ([], c ∷ p) else (c ∷ name, rest)

unfoldable pub skip_value : Bytes → Bytes
skip_value [] = []
skip_value (c ∷ p) = let rest = skip_value p in if c == b'&' then c ∷ p else rest

-- What one `name=value` does to the query, and where `p` stands then.
unfoldable pub apply_arg : Bytes → Bytes → Query → Query × Bytes
apply_arg name p query =
    let field = query_field_from_string name in
    let (value, rest) = decode_url p in
    if number field == 0 then (query, skip_value p) else (
      elim value [ none ↦ query | some text ↦ query_filter query field (some (upto_nul text)) ],
      rest,
    )

-- Each round takes at least one byte, so one more round than bytes is enough.
unfoldable pub filters_loop : ℕ → Bytes → Query → Run Query
filters_loop zero p query = fault endless
filters_loop (suc fuel) p query =
    let (name, at) = upto_delimiter p in
    elim at [
      | [] ↦ done query
      | c ∷ p' ↦ elim (c == b'&') [
        | true ↦ filters_loop fuel p' query
        | false ↦
            let (query', at') = apply_arg name p' query in
            elim at' [ [] ↦ done query' | d ∷ p'' ↦ filters_loop fuel p'' query' ]
      ]
    ]

unfoldable pub parse_query_filters : Request → Query → Run Query
parse_query_filters http query = elim http.args [
  | none ↦ done query
  | some args ↦ filters_loop (length args + 1) args query
]

unfoldable pub parse_query_bounds : (Bytes → ℤ) → Request → Query → Query
parse_query_bounds scan_int http query =
    let limit = args_int scan_int http (codes "limit") in
    let offset = args_int scan_int http (codes "offset") in
    let limited = if is_positive limit then query_limit query limit else query in
    if is_positive offset then query_offset limited offset else limited

unfoldable pub parse_query_sort : Request → Query → Query
parse_query_sort http query = elim (args_str http (codes "sort")) [
  | none ↦ query
  | some sort ↦ (query_sort_from_string query sort).0
]

-- `query_count` is an argument: it asks the database.
unfoldable pub parse_total : (Query → ℤ) → Request → Query → ℤ
parse_total query_count http query =
    if not (args_bool http (codes "total")) then pos 0 else query_count query
