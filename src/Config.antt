-- ===== src/Config.antt =====
-- src/config.c: the settings, the lines of a configuration file and the arguments of the command
-- line. The list `settings` is in the order of the queue; a hook is known by a number, and the calls
-- of hooks are recorded. Texts hold no NUL. `getenv` is an argument.
pub mod Store
pub mod Lines
pub mod File
pub mod Args
mod Tests
use mathlib.Core.Option
use musicd.Base.{
  ℕ, zero, suc, ◌+◌, ◌*◌, ◌-◌, Bool, true, false, not, ◌&&◌, ◌||◌, List, [], ◌∷◌, ◌++◌, Option,
  none, some, ltb, leb, ◌==◌, if◌then◌else◌, Bytes, codes, equal, length, drop, take,
}
use musicd.Memory.{Run, done, fault, endless, out_of_bounds, ◌>>=◌}

pub record Setting : Type 0 where
  pub key : Bytes
  pub value : Bytes
  -- the last value of `config_to_path`
  pub path_value : Option Bytes
  pub hook : Option ℕ

pub record Config : Type 0 where
  pub settings : List Setting
  -- the hooks called, with the value, latest first
  pub calls : List (ℕ × Bytes)

-- `config_init`.
unfoldable pub config_init : Config
config_init = record { settings = []; calls = [] }

unfoldable pub setting_by_key : Bytes → List Setting → Option Setting
setting_by_key key [] = none
setting_by_key key (s ∷ settings) = if equal s.key key then some s else setting_by_key key settings

-- Writes to the setting that `setting_by_key` found.
unfoldable pub update : Bytes → (Setting → Setting) → List Setting → List Setting
update key f [] = []
update key f (s ∷ settings) = if equal s.key key then f s ∷ settings else s ∷ update key f settings

unfoldable pub call_hook : Option ℕ → Bytes → List (ℕ × Bytes) → List (ℕ × Bytes)
call_hook none value calls = calls
call_hook (some hook) value calls = (hook, value) ∷ calls

abbrev pub new_setting : Bytes → Bytes → Setting
new_setting key value = record { key = key; value = value; path_value = none; hook = none }

unfoldable pub config_set : Bytes → Bytes → Config → Config
config_set key value c = elim (setting_by_key key c.settings) [
  | none ↦ record c { settings = c.settings ++ (new_setting key value ∷ []) }
  | some s ↦ record {
    settings = update key (λ s. record s { value = value }) c.settings;
    calls = call_hook s.hook value c.calls;
  }
]

unfoldable pub config_set_hook : Bytes → ℕ → Config → Config
config_set_hook key hook c =
    let set : Config = elim (setting_by_key key c.settings) [
      | none ↦ config_set key [] c
      | some s ↦ c
    ] in
    record set { settings = update key (λ s. record s { hook = some hook }) set.settings }

unfoldable pub config_get_value : Bytes → Config → Option Bytes
config_get_value key c = Option.map (λ (s : Setting). s.value) (setting_by_key key c.settings)

unfoldable pub config_get : Bytes → Config → Bytes
config_get key c = elim (config_get_value key c) [ none ↦ [] | some value ↦ value ]

unfoldable pub config_to_bool : Bytes → Config → Bool
config_to_bool key c = elim (config_get_value key c) [
  | none ↦ false
  | some value ↦ not (equal (codes "false") value)
]

abbrev pub first : Bytes → ℕ
first [] = 0
first (c ∷ s) = c

abbrev pub last : Bytes → ℕ
last [] = 0
last (c ∷ []) = c
last (c ∷ d ∷ s) = last (d ∷ s)

-- `home` without a slash at its end; the source writes this into the environment's own text.
unfoldable pub trim_home : Bytes → Run Bytes
trim_home [] = fault out_of_bounds
trim_home (c ∷ s) = if last (c ∷ s) == b'/' then done (take (length s) (c ∷ s)) else done (c ∷ s)

abbrev pub skip_slash : Bytes → Bytes
skip_slash [] = []
skip_slash (c ∷ s) = if c == b'/' then s else c ∷ s

-- The path or NULL, and the settings, where the path made is kept.
unfoldable pub config_to_path : Option Bytes → Bytes → Config → Run (Option Bytes × Config)
config_to_path home key c = elim (setting_by_key key c.settings) [
  | none ↦ done (none, c)
  | some s ↦ elim (first s.value == b'~') [
    | false ↦ done (some s.value, c)
    | true ↦ elim home [
      | none ↦ done (none, c)
      | some home ↦ do
        trimmed ← trim_home home
        let path = trimmed ++ (codes "/" ++ skip_slash (drop 1 s.value))
        done (
          some path,
          record c { settings = update key (λ s. record s { path_value = some path }) c.settings },
        )
    ]
  ]
]

abbrev pub blank : ℕ → Bool
blank c = c == b' ' || c == 9

unfoldable pub skip_whitespace : Bytes → Bytes
skip_whitespace [] = []
skip_whitespace (c ∷ line) = let rest = skip_whitespace line in if blank c then rest else c ∷ line

unfoldable pub upto_blank : Bytes → Bytes
upto_blank [] = []
upto_blank (c ∷ line) = let rest = upto_blank line in if blank c then [] else c ∷ rest

unfoldable pub read_key : Bytes → Bytes
read_key line = upto_blank (skip_whitespace line)

unfoldable pub read_value : Bytes → Bytes
read_value line = skip_whitespace line

-- The rounds of `read_line` from `pos` on, with a buffer of `buf_len` bytes: the line and the rest of
-- the file, or NULL at the end of the file.
unfoldable pub read_bytes : ℕ → ℕ → Bytes → Run (Option (Bytes × Bytes))
read_bytes buf_len pos [] =
    let larger = if leb buf_len (pos + 1) then buf_len * 2 else buf_len in
    if ltb pos larger then done none else fault out_of_bounds
read_bytes buf_len pos (c ∷ file) =
    let larger = if leb buf_len (pos + 1) then buf_len * 2 else buf_len in
    let rest = read_bytes larger (pos + 1) file in
    if not (ltb pos larger)
    then fault out_of_bounds
    else if c == 10
    then done (some ([], file))
    else do read ← rest; done (Option.map (λ (line, file'). (c ∷ line, file')) read)

unfoldable pub read_line : Bytes → Run (Option (Bytes × Bytes))
read_line file = read_bytes 81 0 file

-- The loop over `i`: a line with nothing but blanks before its end or before a `#`.
unfoldable pub ignored : Bytes → Bool
ignored [] = true
ignored (c ∷ line) =
    let rest = ignored line in if c == b'#' then true else if blank c then rest else false

unfoldable pub load_line : Bytes → Config → Config
load_line line c =
    let key = read_key line in
    if ignored line then c else config_set key (read_value (drop (length key) line)) c

unfoldable pub load_lines : ℕ → Bytes → Config → Run Config
load_lines zero file c = fault endless
load_lines (suc fuel) file c = do
  read ← read_line file
  elim read [ none ↦ done c | some (line, rest) ↦ load_lines fuel rest (load_line line c) ]

-- The settings and whether the result is 0; `none` is a file that cannot be opened. A line takes at
-- least one byte, so one more round than bytes is enough.
unfoldable pub config_load_file : Option Bytes → Config → Run (Config × Bool)
config_load_file none c = done (c, false)
config_load_file (some file) c = do
  loaded ← load_lines (length file + 1) file c
  done (loaded, true)

abbrev pub flagged : Bytes → Bool
flagged [] = false
flagged (c ∷ []) = false
flagged (c ∷ d ∷ s) = c == b'-' && d == b'-'

-- `argv` from 1 on.
unfoldable pub config_load_args : List Bytes → Config → Config × Bool
config_load_args [] c = (c, true)
config_load_args (key ∷ []) c =
    if not (flagged key) then (c, false) else (config_set (drop 2 key) (codes "true") c, true)
config_load_args (key ∷ value ∷ args) c =
    let marked = config_load_args (value ∷ args) (config_set (drop 2 key) (codes "true") c) in
    let set = config_load_args args (config_set (drop 2 key) value c) in
    if not (flagged key) then (c, false) else if first value == b'-' then marked else set
