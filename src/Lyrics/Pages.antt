-- ===== src/Lyrics/Pages.antt =====
-- src/lyrics.c: the line that find_lyrics_page_name takes.
use mathlib.Core.List.{reverse, reverse-append, reverse-cons, reverse-reverse}
use musicd.Memory.{take-length_append}
use musicd.Base.{
  ℕ, ◌-◌, ◌≡◌, ◌≢◌, refl, sym, ap, ◌∙◌, [], ◌∷◌, ◌++◌, append_assoc, some, arith, Bytes, codes,
  length, length-append, take, tail, All, All-append, ◌==◌, Bool, true, false, if◌then◌else◌,
}
use musicd.Strings.Search.{strstr, strchr, strchrnull, strextract-append, or_end}
use musicd.Lyrics.{line_start, line_from, find_lyrics_page_name}

-- The text has no line end.
abbrev pub IsLine : Bytes → Type 0
IsLine s = All (λ c. c ≢ 10) s

other : (c : ℕ) → c ≢ 10 → (c == 10) ≡ false
other c apart = ground (arith, apart)

line_start_first :
    (name : Bytes) (c : ℕ) (p : Bytes)
    → IsLine name
    → c ≢ 10
    → line_start name (c ∷ p) ≡ reverse name ++ (c ∷ p)
unfolding line_start
line_start_first [] c p h apart = refl
line_start_first (d ∷ name) c p h apart = rw (other c apart) (
    line_start_first name d (c ∷ p) h.1 h.0
    ∙ sym (append_assoc (reverse name) (d ∷ []) (c ∷ p))
    ∙ ap (λ s. s ++ (c ∷ p)) (sym (reverse-cons d name)))

line_start_here : (before p : Bytes) → line_start before (10 ∷ p) ≡ 10 ∷ p
unfolding line_start
line_start_here [] p = refl
line_start_here (c ∷ before) p = refl

line_start_later :
    (name : Bytes) (c : ℕ) (p before : Bytes)
    → IsLine name
    → c ≢ 10
    → line_start (name ++ (10 ∷ before)) (c ∷ p) ≡ 10 ∷ (reverse name ++ (c ∷ p))
unfolding line_start
line_start_later [] c p before h apart = rw (other c apart) (line_start_here before (c ∷ p))
line_start_later (d ∷ name) c p before h apart = rw (other c apart) (
    line_start_later name d (c ∷ p) before h.1 h.0
    ∙ ap (◌∷◌ 10) (
        sym (append_assoc (reverse name) (d ∷ []) (c ∷ p))
        ∙ ap (λ s. s ++ (c ∷ p)) (sym (reverse-cons d name))))

strchr_line : (line rest : Bytes) → IsLine line → strchrnull (line ++ (10 ∷ rest)) 10 ≡ 10 ∷ rest
unfolding strchr or_end
strchr_line [] rest h = refl
strchr_line (c ∷ line) rest h = ground (arith, h.0, strchr_line line rest h.1)

IsLine-reverse : (s : Bytes) → IsLine s → IsLine (reverse s)
IsLine-reverse [] h = tt
IsLine-reverse (c ∷ s) h =
    rw (reverse-cons c s)
      (All-append (λ c. c ≢ 10) (reverse s) (c ∷ []) (IsLine-reverse s h.1) (h.0, tt))

-- What stands before a suffix.
before_suffix : (pre p : Bytes) → take (length (pre ++ p) - length p) (pre ++ p) ≡ pre
before_suffix pre p =
    let n : length (pre ++ p) - length p ≡ length pre = omega (arith, length-append pre p) in
    rw n (take-length_append pre p)

found_name :
    (pre p title : Bytes)
    → strstr (pre ++ p) (title ++ codes "\n") ≡ some p
    → find_lyrics_page_name (pre ++ p) title ≡ some (line_from (reverse pre) p)
unfolding find_lyrics_page_name
found_name pre p title e = rw (e, find_lyrics_page_name) (rw (before_suffix pre p) refl)

reverse_line :
    (before name : Bytes) → reverse (before ++ (10 ∷ name)) ≡ reverse name ++ (10 ∷ reverse before)
reverse_line before name =
    reverse-append before (10 ∷ name)
    ∙ ap (λ s. s ++ reverse before) (reverse-cons 10 name)
    ∙ append_assoc (reverse name) (10 ∷ []) (reverse before)

line_from_eq :
    (before p line rest : Bytes)
    → tail (line_start before p) ≡ line ++ (10 ∷ rest)
    → IsLine line
    → line_from before p ≡ line
unfolding line_from
line_from_eq before p line rest e h =
    rw (e, line_from) (rw (strchr_line line rest h) (strextract-append line (10 ∷ rest)))

tail_line :
    (name : Bytes) (c : ℕ) (title rest : Bytes)
    → tail (name ++ (c ∷ (title ++ rest))) ≡ tail (name ++ (c ∷ title)) ++ rest
tail_line [] c title rest = refl
tail_line (d ∷ name) c title rest = sym (append_assoc name (c ∷ title) rest)

IsLine-tail : (s : Bytes) → IsLine s → IsLine (tail s)
IsLine-tail [] h = tt
IsLine-tail (c ∷ s) h = h.1

-- What stands before the title: the beginning of its line, and the lines before if it is not in the
-- first line.
abbrev pub lead : Bool → Bytes → Bytes → Bytes
lead true before name = name
lead false before name = before ++ (10 ∷ name)

-- Where the title, which is not empty, is found at the end of a line, the page name is that line; but of
-- the first line of the page the first byte is lost.
pub find_lyrics_page_name-line :
    (is_first : Bool) (c : ℕ) (before name title rest : Bytes)
    → IsLine name
    → IsLine (c ∷ title)
    → strstr (lead is_first before name ++ (c ∷ (title ++ (10 ∷ rest)))) (c ∷ (title ++ codes "\n"))
      ≡ some (c ∷ (title ++ (10 ∷ rest)))
    → find_lyrics_page_name (lead is_first before name ++ (c ∷ (title ++ (10 ∷ rest)))) (c ∷ title)
      ≡ some (if is_first then tail (name ++ (c ∷ title)) else name ++ (c ∷ title))
find_lyrics_page_name-line true c before name title rest n t e =
    found_name name (c ∷ (title ++ (10 ∷ rest))) (c ∷ title) e
    ∙ ap some (
        line_from_eq (reverse name) (c ∷ (title ++ (10 ∷ rest))) (tail (name ++ (c ∷ title))) rest
          (ap tail (
              line_start_first (reverse name) c (title ++ (10 ∷ rest)) (IsLine-reverse name n) t.0
              ∙ ap (λ s. s ++ (c ∷ (title ++ (10 ∷ rest)))) (reverse-reverse name))
            ∙ tail_line name c title (10 ∷ rest))
          (IsLine-tail (name ++ (c ∷ title)) (All-append (λ c. c ≢ 10) name (c ∷ title) n t)))
find_lyrics_page_name-line false c before name title rest n t e =
    found_name (before ++ (10 ∷ name)) (c ∷ (title ++ (10 ∷ rest))) (c ∷ title) e
    ∙ ap some (
        line_from_eq (reverse (before ++ (10 ∷ name))) (c ∷ (title ++ (10 ∷ rest)))
          (name ++ (c ∷ title)) rest
          (ap (λ b. tail (line_start b (c ∷ (title ++ (10 ∷ rest))))) (reverse_line before name)
            ∙ ap tail (
                line_start_later (reverse name) c (title ++ (10 ∷ rest)) (reverse before)
                  (IsLine-reverse name n) t.0)
            ∙ ap (λ s. s ++ (c ∷ (title ++ (10 ∷ rest)))) (reverse-reverse name)
            ∙ sym (append_assoc name (c ∷ title) (10 ∷ rest)))
          (All-append (λ c. c ≢ 10) name (c ∷ title) n t))
