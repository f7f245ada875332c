-- ===== src/Strings/Contents.antt =====
-- src/strings.c: what a `string_t` holds, and the operations on what it holds.
use mathlib.Core.List.{map-append}
use musicd.Base.{
  ℕ, zero, suc, ◌+◌, ◌-◌, ◌%◌, ◌≤◌, ◌<◌, ◌≡◌, refl, ap, ◌∙◌, inl, inr, List, [], ◌∷◌, ◌++◌, Option,
  some, append_assoc, Bool-cases, length, length-append, length-map, leb, leb→le, arith, Bytes,
}
use musicd.Memory.{
  Run, done, ◌>>=◌, Cells, fresh, realloc, realloc_grows, length-realloc, store, store-append,
}
use musicd.Strings.Growth.{size_half, grow_ends}
use musicd.Strings.{Buffer, size_mod, cells, string_ensure_space, string_nappend, string_push_back}

-- The block has one cell more than `max_size`, and holds the bytes and then a NUL.
pub record Holds (s : Buffer) (text : Bytes) : Type 0 where
  pub slack : Cells
  pub layout : s.string ≡ cells text ++ (some 0 ∷ slack)
  pub size_is : s.size ≡ length text
  pub room : length s.string ≡ s.max_size + 1

pub split_at {ℓ} :
    {A : Type ℓ} (n : ℕ) (xs : List A)
    → n < length xs
    → (pre : List A) × (c : A) × (post : List A) × (xs ≡ pre ++ (c ∷ post)) × (length pre ≡ n)
split_at n [] h = absurd (omega arith)
split_at zero (x ∷ xs) h = ([], x, xs, refl, refl)
split_at (suc n) (x ∷ xs) h =
    let (pre, c, post, e, k) = split_at n xs (omega arith) in
    (x ∷ pre, c, post, ap (◌∷◌ x) e, ap suc k)

-- Enough space and the same bytes, in a block that never shrinks.
pub record Grown (s s' : Buffer) (text : Bytes) (size : ℕ) : Type 0 where
  pub holds : Holds s' text
  pub same_size : s'.size ≡ s.size
  pub enough : size ≤ s'.max_size
  pub kept : s.max_size ≤ s'.max_size

pub string_ensure_space-Grown :
    (s : Buffer) (text : Bytes) (size : ℕ)
    → Holds s text
    → 0 < s.max_size
    → size ≤ size_half
    → (s' : Buffer) × (string_ensure_space s size ≡ done s') × Grown s s' text size
string_ensure_space-Grown s text size h p k = elim (Bool-cases (leb size s.max_size)) [
  | inl fits ↦ (
    s,
    unfold string_ensure_space in rw fits,
    record { holds = h; same_size = refl; enough = leb→le _ _ fits; kept = omega arith },
  )
  | inr small ↦
      let (m, ends, enough, kept) = grow_ends 64 s.max_size size p k (omega arith) in
      let block = realloc (m + 1) s.string in
      let grown = realloc_grows (m + 1) s.string (omega (arith, h.room)) in
      (
        record s { string = block; max_size = m },
        unfold string_ensure_space in rw small (rw ends),
        record {
          holds = record {
            slack = h.slack ++ fresh (m + 1 - length s.string);
            layout = grown ∙ rw h.layout (append_assoc (cells text) _ _);
            size_is = h.size_is;
            room = length-realloc (m + 1) s.string (omega (arith, h.room));
          };
          same_size = refl;
          enough = enough;
          kept = kept;
        },
      )
]

-- The block behind the text, cut where `more` cells have been passed.
record Cut (s : Buffer) (text : Bytes) (more : ℕ) : Type 0 where
  old : Cells
  last : Option ℕ
  post : Cells
  cut : s.string ≡ cells text ++ (old ++ (last ∷ post))
  old_is : length old ≡ more

Holds-Cut :
    (s : Buffer) (text : Bytes) (more : ℕ)
    → Holds s text
    → length text + more ≤ s.max_size
    → Cut s text more
Holds-Cut s text more h room =
    let total = ap length h.layout in
    let parts = length-append (cells text) (some 0 ∷ h.slack) in
    let (old, c, post, e, k) =
      split_at more (some 0 ∷ h.slack)
        (omega (arith, total, parts, length-map text (λ (x : ℕ). some x), h.room)) in
    record {
      old = old;
      last = c;
      post = post;
      cut = h.layout ∙ ap (λ rest. cells text ++ rest) e;
      old_is = k;
    }

-- Two copies behind the text: the added bytes, and the NUL that closes them.
write_behind : Buffer → Bytes → ℕ → Run Buffer
write_behind s added size = do
  block ← store s.size (cells added) s.string
  block' ← store size (some 0 ∷ []) block
  done (record s { string = block'; size = size })

write_behind-Holds :
    (s : Buffer) (text added : Bytes) (size : ℕ)
    → Holds s text
    → size ≡ length text + length added
    → size ≤ s.max_size
    → (s' : Buffer) × (write_behind s added size ≡ done s')
      × Holds s' (text ++ added)
      × (s'.max_size ≡ s.max_size)
write_behind-Holds s text added size h e room =
    let c = Holds-Cut s text (length added) h (omega arith) in
    let some_length = length-map added (λ (x : ℕ). some x) in
    let text_length = length-map text (λ (x : ℕ). some x) in
    let joined = map-append some text added in
    let block = cells text ++ (cells added ++ (c.last ∷ c.post)) in
    let block' = cells (text ++ added) ++ (some 0 ∷ c.post) in
    let first : store s.size (cells added) s.string ≡ done block = rw (c.cut) (
      store-append (cells text) (cells added) c.old (c.last ∷ c.post) s.size
        (omega (arith, h.size_is)) (omega (arith, c.old_is))) in
    let regroup : block ≡ cells (text ++ added) ++ ((c.last ∷ []) ++ c.post) =
      rw (joined, append_assoc) in
    let second : store size (some 0 ∷ []) block ≡ done block' = rw regroup (
      store-append (cells (text ++ added)) (some 0 ∷ []) (c.last ∷ []) c.post size
        (omega (arith, length-append text added, length-map (text ++ added) (λ (x : ℕ). some x)))
        refl) in
    (
      record s { string = block'; size = size },
      unfold write_behind in rw first (rw second),
      record {
        slack = c.post;
        layout = refl;
        size_is = omega (arith, length-append text added);
        room = omega (
          arith,
          h.room,
          c.old_is,
          ap length c.cut,
          length-append (cells text) (c.old ++ (c.last ∷ c.post)),
          length-append c.old (c.last ∷ c.post),
          length-append (cells (text ++ added)) (some 0 ∷ c.post),
          length-append text added,
          length-map (text ++ added) (λ (x : ℕ). some x),
          text_length,
        );
      },
      refl,
    )

-- `string_nappend` on a buffer with room for at least one byte always returns, writes inside its
-- block, and appends exactly the bytes given, while the text stays below 2 ^ 63 bytes.
pub string_nappend-Holds :
    (s : Buffer) (text added : Bytes)
    → Holds s text
    → 0 < s.max_size
    → length text + length added ≤ size_half
    → (s' : Buffer) × (string_nappend s added ≡ done s')
      × Holds s' (text ++ added)
      × (s.max_size ≤ s'.max_size)
string_nappend-Holds s text added h p k =
    let newlen : (s.size + length added) % size_mod ≡ length text + length added =
      omega (arith, h.size_is) in
    let (grown, ends, g) = string_ensure_space-Grown s text (length text + length added) h p k in
    let (s', written, holds, same) =
      write_behind-Holds grown text added (length text + length added) g.holds refl g.enough in
    (
      s',
      unfold string_nappend in rw newlen (rw ends (unfold write_behind in written)),
      holds,
      omega (arith, g.kept),
    )

-- On a buffer that holds a text and has room for at least one byte, `string_push_back` always returns
-- without writing outside its block, and the buffer then holds the text with the byte behind it, while
-- that is at most 2^63 bytes long; the capacity never shrinks.
pub string_push_back-Holds :
    (s : Buffer) (text : Bytes) (c : ℕ)
    → Holds s text
    → 0 < s.max_size
    → length text + 1 ≤ size_half
    → (s' : Buffer) × (string_push_back s c ≡ done s')
      × Holds s' (text ++ (c ∷ []))
      × (s.max_size ≤ s'.max_size)
string_push_back-Holds s text c h p k =
    let (grown, ends, g) =
      string_ensure_space-Grown s text (s.size + 1) h p (omega (arith, h.size_is)) in
    let (s', written, holds, same) =
      write_behind-Holds grown text (c ∷ []) (grown.size + 1) g.holds
        (omega (arith, g.holds.size_is)) (omega (arith, g.same_size, g.enough)) in
    (
      s',
      unfold string_push_back in rw ends (unfold write_behind in written),
      holds,
      omega (arith, g.kept),
    )
