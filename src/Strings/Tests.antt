-- ===== src/Strings/Tests.antt =====
-- Runs of the buffer and the searches on concrete input, and instances of the theorems.
use musicd.Base.{
  ◌≤◌, ◌≡◌, refl, [], ◌∷◌, none, some, map, drop, ltb, arith, inl, ◌↔◌, Bytes, true, ◌++◌,
  if◌then◌else◌, codes,
}
use mathlib.Core.Option
use musicd.Memory.{done, fault, endless, realloc, store, load}
use musicd.Strings.Contents.{Holds, string_nappend-Holds, string_push_back-Holds}
use musicd.Strings.Whole.{string_remove_front-Holds, string_of_empty_hangs}
use musicd.Strings.Format.{
  Printer, Prints, stringf, string_appendf, stringf-Prints, string_appendf-Holds,
}
use musicd.Strings.Search.{
  strbeginswith, strbeginswith_iff, strextract-append, tolower, strstr, strcasestr, strextract,
  strcasestr-strstr, FirstAt, strstr-FirstAt,
}
use musicd.Strings.{
  Buffer, cells, grow, string_new, string_of, string_ensure_space, string_nappend, string_push_back,
  string_remove_front,
}

abbrev two : Buffer
two = record { string = cells (codes "ab") ++ (some 0 ∷ []); size = 2; max_size = 2 }

abbrev nothing : Buffer
nothing = record { string = some 0 ∷ []; size = 0; max_size = 0 }

two-Holds : Holds two (codes "ab")
two-Holds = record { slack = []; layout = refl; size_is = refl; room = refl }

program : Unit {0}
unfolding string_new string_of string_ensure_space string_nappend string_push_back
    string_remove_front grow realloc store load
program = tt

runs :
    (string_of (codes "ab") ≡ done two)
    × (string_nappend two (codes "cde")
        ≡ done (record {
          string = cells (codes "abcde") ++ (some 0 ∷ none ∷ none ∷ none ∷ []);
          size = 5;
          max_size = 8;
        }))
    × (string_remove_front two 1
        ≡ done (record { string = some b'b' ∷ some 0 ∷ some 0 ∷ []; size = 1; max_size = 2 }))
unfolding program
runs = (refl, refl, refl)

string_nappend-Holds_example :
    (s : Buffer) × (string_nappend two (codes "cde") ≡ done s)
    × Holds s (codes "ab" ++ codes "cde")
    × (2 ≤ s.max_size)
string_nappend-Holds_example =
    string_nappend-Holds two (codes "ab") (codes "cde") two-Holds (omega arith) (omega arith)

string_push_back-Holds_example :
    (s : Buffer) × (string_push_back two b'c' ≡ done s)
    × Holds s (codes "ab" ++ (b'c' ∷ []))
    × (2 ≤ s.max_size)
string_push_back-Holds_example =
    string_push_back-Holds two (codes "ab") b'c' two-Holds (omega arith) (omega arith)

string_remove_front-Holds_example :
    (s : Buffer) × (string_remove_front two 1 ≡ done s) × Holds s (drop 1 (codes "ab"))
string_remove_front-Holds_example =
    string_remove_front-Holds two (codes "ab") 1 two-Holds (omega arith)

string_of-empty : string_of [] ≡ done nothing
unfolding program
string_of-empty = refl

string_of_empty_hangs_example : string_nappend nothing (codes "a") ≡ fault endless
string_of_empty_hangs_example =
    string_of_empty_hangs nothing (codes "a") string_of-empty (omega arith) (omega arith)

-- A `vsnprintf` that tells the length, of "%d%%" at 42.
abbrev prints_42 : Printer
prints_42 size = (some 3, if ltb 3 size then codes "42%" else [])

prints_42-Prints : Prints prints_42 (codes "42%")
prints_42-Prints = record { roomy = λ size h. ground arith; tight = λ size h. inl refl }

stringf-Prints_example : stringf 2 prints_42 ≡ done (codes "42%")
stringf-Prints_example = stringf-Prints 0 prints_42 (codes "42%") prints_42-Prints (omega arith)

string_appendf-Holds_example :
    (s : Buffer) × (string_appendf 2 two prints_42 ≡ done s)
    × Holds s (codes "ab" ++ codes "42%")
    × (2 ≤ s.max_size)
string_appendf-Holds_example =
    string_appendf-Holds 0 two prints_42 (codes "ab") (codes "42%") two-Holds (omega arith)
      prints_42-Prints (omega arith) (omega arith)

searches :
    (strstr (codes "a\r\n\r\nb") (codes "\r\n\r\n") ≡ some (codes "\r\n\r\nb"))
    × (strcasestr (codes "x: ORIGIN: y") (codes "origin") ≡ some (codes "ORIGIN: y"))
    × (strextract (codes "name=1") (codes "=1") ≡ codes "name")
unfolding strstr strcasestr strextract
searches = (refl, refl, refl)

strcasestr-strstr_example :
    Option.map (map tolower) (strcasestr (codes "a: BC") (codes "bc"))
    ≡ strstr (map tolower (codes "a: BC")) (map tolower (codes "bc"))
strcasestr-strstr_example = strcasestr-strstr (codes "a: BC") (codes "bc") (λ e. cc)

strstr-FirstAt_example : FirstAt (codes "b") (codes "abcb") (codes "bcb")
unfolding strstr
strstr-FirstAt_example = strstr-FirstAt (codes "abcb") (codes "b") refl

strbeginswith_iff_example :
    (strbeginswith (codes "abc") (codes "ab") ≡ true)
    ↔ ((rest : Bytes) × (codes "abc" ≡ codes "ab" ++ rest))
strbeginswith_iff_example = strbeginswith_iff (codes "abc") (codes "ab")

strextract-append_example : strextract (codes "ab" ++ codes ",c") (codes ",c") ≡ codes "ab"
strextract-append_example = strextract-append (codes "ab") (codes ",c")
