-- ===== src/Strings/Whole.antt =====
-- Taking bytes off the front of a buffer, and the buffers that `string_new`, `string_of` and
-- `string_from` make.
use mathlib.Core.List.{map-append}
use musicd.Base.{
  ℕ, zero, suc, ◌+◌, ◌-◌, ◌%◌, ◌≤◌, ◌<◌, ◌≡◌, refl, sym, ap, ◌∙◌, [], ◌∷◌, ◌++◌, some, append_assoc,
  length, take, drop, length-append, length-drop, length-map, take-append-drop, le→leb, lt→leb,
  arith, Bytes,
}
use musicd.Memory.{
  done, fault, endless, fresh, length-fresh, store, store-append, load, load-append,
}
use musicd.Strings.Growth.{grow-zero}
use musicd.Strings.{
  Buffer, size_mod, cells, doublings, string_new, string_of, string_ensure_space, string_nappend,
  string_remove_front,
}
use musicd.Strings.Contents.{Holds, split_at}

length-take-le : (n : ℕ) (xs : Bytes) → n ≤ length xs → length (take n xs) ≡ n
length-take-le zero xs h = refl
length-take-le (suc n) [] h = omega arith
length-take-le (suc n) (x ∷ xs) h = ap suc (length-take-le n xs (omega arith))

-- `string_remove_front` of no more bytes than the text has leaves the rest.
pub string_remove_front-Holds :
    (s : Buffer) (text : Bytes) (n : ℕ)
    → Holds s text
    → n ≤ length text
    → (s' : Buffer) × (string_remove_front s n ≡ done s') × Holds s' (drop n text)
string_remove_front-Holds s text n h k =
    let gone = take n text in
    let kept = drop n text in
    let both = take-append-drop n text in
    let gone_length : length (cells gone) ≡ n =
      omega (arith, length-map gone (λ (x : ℕ). some x), length-take-le n text k) in
    let kept_length : length (cells kept) ≡ s.size - n =
      omega (arith, length-map kept (λ (x : ℕ). some x), length-drop n text, h.size_is) in
    let parts : s.string ≡ cells gone ++ (cells kept ++ (some 0 ∷ h.slack)) =
      h.layout
      ∙ ap (λ t. cells t ++ (some 0 ∷ h.slack)) (sym both)
      ∙ rw (map-append, append_assoc) in
    let lengths = length-append (cells gone) (cells kept ++ (some 0 ∷ h.slack)) in
    let lengths' = length-append (cells kept) (some 0 ∷ h.slack) in
    let (old, last, post, split, old_length) =
      split_at (s.size - n) s.string
        (omega (arith, ap length parts, lengths, lengths', h.size_is)) in
    let read : load n (s.size - n) s.string ≡ done (cells kept) = rw parts (
      load-append (cells gone) (cells kept) (some 0 ∷ h.slack) n (s.size - n) (sym gone_length)
        (sym kept_length)) in
    let moved : store 0 (cells kept) s.string ≡ done (cells kept ++ (last ∷ post)) =
      rw split (store-append [] (cells kept) old (last ∷ post) 0 refl (omega arith)) in
    let closed : store (s.size - n) (some 0 ∷ []) (cells kept ++ (last ∷ post))
        ≡ done (cells kept ++ (some 0 ∷ post)) =
      store-append (cells kept) (some 0 ∷ []) (last ∷ []) post (s.size - n) (sym kept_length)
        refl in
    (
      record s { string = cells kept ++ (some 0 ∷ post); size = s.size - n },
      unfold string_remove_front in
          rw (le→leb n s.size (omega (arith, h.size_is))) (rw read (rw moved (rw closed))),
      record {
        slack = post;
        layout = refl;
        size_is = omega (arith, length-drop n text, h.size_is);
        room = omega (
          arith,
          h.room,
          old_length,
          kept_length,
          ap length split,
          length-append old (last ∷ post),
          length-append (cells kept) (some 0 ∷ post),
        );
      },
    )

done-injective : {s t : Buffer} → done s ≡ done t → s ≡ t
done-injective e = cc

pub string_new-Holds : (s : Buffer) × (string_new ≡ done s) × Holds s [] × (s.max_size ≡ 64)
unfolding string_new store
string_new-Holds = (
  record { string = some 0 ∷ fresh 64; size = 0; max_size = 64 },
  refl,
  record { slack = fresh 64; layout = refl; size_is = refl; room = refl },
  refl,
)

-- `string_of` and `string_from` hold the text given, with no room to spare.
pub string_of-Holds :
    (text : Bytes)
    → (s : Buffer) × (string_of text ≡ done s) × Holds s text × (s.max_size ≡ length text)
string_of-Holds text =
    let text_length = length-map text (λ (x : ℕ). some x) in
    let (old, last, post, split, old_length) =
      split_at (length text) (fresh (length text + 1))
        (omega (arith, length-fresh (length text + 1))) in
    let first : store 0 (cells text) (fresh (length text + 1))
        ≡ done (cells text ++ (last ∷ post)) =
      rw split (store-append [] (cells text) old (last ∷ post) 0 refl (omega arith)) in
    let second : store (length text) (some 0 ∷ []) (cells text ++ (last ∷ post))
        ≡ done (cells text ++ (some 0 ∷ post)) =
      store-append (cells text) (some 0 ∷ []) (last ∷ []) post (length text) (sym text_length)
        refl in
    (
      record { string = cells text ++ (some 0 ∷ post); size = length text; max_size = length text },
      unfold string_of in rw first (rw second),
      record {
        slack = post;
        layout = refl;
        size_is = refl;
        room = omega (
          arith,
          old_length,
          length-fresh (length text + 1),
          ap length split,
          length-append old (last ∷ post),
          length-append (cells text) (some 0 ∷ post),
        );
      },
      refl,
    )

-- A buffer made by `string_of` or `string_from` from the empty text never takes a byte: the loop
-- that doubles its `max_size` of 0 does not end.
pub string_of_empty_hangs :
    (s : Buffer) (added : Bytes)
    → string_of [] ≡ done s
    → 0 < length added
    → length added < size_mod
    → string_nappend s added ≡ fault endless
string_of_empty_hangs s added made p k =
    let (t, made', h, none_left) = string_of-Holds [] in
    let size : s.size ≡ 0 = rw (done-injective (sym made ∙ made')) h.size_is in
    let max : s.max_size ≡ 0 = rw (done-injective (sym made ∙ made')) none_left in
    let newlen : (s.size + length added) % size_mod ≡ length added = omega arith in
    unfold string_nappend string_ensure_space in
    rw newlen (rw max (rw (lt→leb (length added) 0 p) (rw (grow-zero doublings (length added) p))))
