-- ===== src/Strings.antt =====
-- src/strings.c: the growing byte buffer `string_t`, over blocks of memory. An operation that
-- would write outside its block, loop for ever or fail an assertion is a `Fault`.
-- Sizes are 64 bits wide and wrap.
use musicd.Base.{
  ℕ, zero, suc, ◌+◌, ◌-◌, ◌*◌, ◌%◌, ◌^◌, List, [], ◌∷◌, Option, none, some, map, length, ltb, leb,
  not, if◌then◌else◌, Bytes,
}
use musicd.Memory.{
  Run, done, fault, endless, assert_failed, ◌>>=◌, Cells, fresh, realloc, store, load,
}
pub mod Growth
pub mod Contents
pub mod Whole
pub mod Format
pub mod Search
mod Tests

pub record Buffer : Type 0 where
  pub string : Cells
  pub size : ℕ
  pub max_size : ℕ

abbrev pub size_mod : ℕ
size_mod = 18_446_744_073_709_551_616

abbrev pub cells : Bytes → Cells
cells = map some

pub string_new : Run Buffer
string_new = do
  block ← store 0 (some 0 ∷ []) (fresh (64 + 1))
  done (record { string = block; size = 0; max_size = 64 })

-- `string_of`; `string_from` does the same with a copy made by `strcopy`.
pub string_of : Bytes → Run Buffer
string_of text = do
  block ← store 0 (cells text) (fresh (length text + 1))
  block' ← store (length text) (some 0 ∷ []) block
  done (record { string = block'; size = length text; max_size = length text })

-- `while (string->max_size < size) string->max_size *= 2;`
pub grow : ℕ → ℕ → ℕ → Run ℕ
grow zero max_size size = fault endless
grow (suc fuel) max_size size =
    let more = grow fuel ((max_size * 2) % size_mod) size in
    if ltb max_size size then more else done max_size

-- Sixty-four doublings bring any positive size to 2 ^ 64.
abbrev pub doublings : ℕ
doublings = 65

pub string_ensure_space : Buffer → ℕ → Run Buffer
string_ensure_space s size = if leb size s.max_size then done s else do
  max_size ← grow doublings s.max_size size
  done (record s { string = realloc (max_size + 1) s.string; max_size = max_size })

pub string_nappend : Buffer → Bytes → Run Buffer
string_nappend s text = do
  let newlen = (s.size + length text) % size_mod
  s' ← string_ensure_space s newlen
  block ← store s'.size (cells text) s'.string
  block' ← store newlen (some 0 ∷ []) block
  done (record s' { string = block'; size = newlen })

pub string_push_back : Buffer → ℕ → Run Buffer
string_push_back s c = do
  s' ← string_ensure_space s (s.size + 1)
  block ← store s'.size (some c ∷ []) s'.string
  block' ← store (s'.size + 1) (some 0 ∷ []) block
  done (record s' { string = block'; size = s'.size + 1 })

pub string_remove_front : Buffer → ℕ → Run Buffer
string_remove_front s n = if not (leb n s.size) then fault assert_failed else do
  let size = s.size - n
  kept ← load n size s.string
  block ← store 0 kept s.string
  block' ← store size (some 0 ∷ []) block
  done (record s { string = block'; size = size })
