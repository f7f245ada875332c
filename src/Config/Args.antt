-- ===== src/Config/Args.antt =====
-- The arguments of the command line.
use musicd.Base.{◌≡◌, refl, true, false, List, [], ◌∷◌, ◌++◌, Bytes, codes, ◌==◌, All}
use musicd.Config.{Config, config_set, first, flagged, config_load_args}
use musicd.Config.Store.{set_all}

-- A flag on the command line: its key, with a value or alone.
pub data Flag : Type 0 where
  with_value : Bytes → Bytes → Flag
  alone : Bytes → Flag

-- A value that does not look like another flag.
abbrev pub IsFlag : Flag → Type 0
IsFlag (with_value key value) = (first value == b'-') ≡ false
IsFlag (alone key) = Unit

abbrev pub dashes : Bytes → Bytes
dashes key = b'-' ∷ b'-' ∷ key

abbrev pub print_args : List Flag → List Bytes
print_args [] = []
print_args (with_value key value ∷ flags) = dashes key ∷ value ∷ print_args flags
print_args (alone key ∷ flags) = dashes key ∷ print_args flags

abbrev pub settings_of : List Flag → List (Bytes × Bytes)
settings_of [] = []
settings_of (with_value key value ∷ flags) = (key, value) ∷ settings_of flags
settings_of (alone key ∷ flags) = (key, codes "true") ∷ settings_of flags

-- Arguments written for flags, each two dashes with a key and then a value or none, set exactly the
-- keys in their order, to `true` where no value follows, and are accepted: values do not begin with
-- a dash.
pub config_load_args-print_args :
    (flags : List Flag) (c : Config)
    → All IsFlag flags
    → config_load_args (print_args flags) c ≡ (set_all (settings_of flags) c, true)
unfolding config_load_args
config_load_args-print_args [] c h = refl
config_load_args-print_args (with_value key value ∷ flags) c (plain, h) =
    rw plain (config_load_args-print_args flags (config_set key value c) h)
config_load_args-print_args (alone key ∷ []) c (plain, h) = refl
config_load_args-print_args (alone key ∷ with_value k v ∷ flags) c (plain, h) =
    config_load_args-print_args (with_value k v ∷ flags) (config_set key (codes "true") c) h
config_load_args-print_args (alone key ∷ alone k ∷ flags) c (plain, h) =
    config_load_args-print_args (alone k ∷ flags) (config_set key (codes "true") c) h

-- The first argument in the place of a flag that has no two dashes ends the loading with an error;
-- the settings before it are kept.
pub config_load_args-wrong :
    (flags : List Flag) (wrong : Bytes) (args : List Bytes) (c : Config)
    → All IsFlag flags
    → flagged wrong ≡ false
    → (first wrong == b'-') ≡ true
    → config_load_args (print_args flags ++ (wrong ∷ args)) c
      ≡ (set_all (settings_of flags) c, false)
unfolding config_load_args
config_load_args-wrong [] wrong [] c h bad dash = rw bad refl
config_load_args-wrong [] wrong (arg ∷ args) c h bad dash = rw bad refl
config_load_args-wrong (with_value key value ∷ flags) wrong args c (plain, h) bad dash =
    rw plain (config_load_args-wrong flags wrong args (config_set key value c) h bad dash)
config_load_args-wrong (alone key ∷ []) wrong args c (plain, h) bad dash =
    rw dash (config_load_args-wrong [] wrong args (config_set key (codes "true") c) tt bad dash)
config_load_args-wrong (alone key ∷ with_value k v ∷ flags) wrong args c (plain, h) bad dash =
    config_load_args-wrong (with_value k v ∷ flags) wrong args (config_set key (codes "true") c) h
      bad dash
config_load_args-wrong (alone key ∷ alone k ∷ flags) wrong args c (plain, h) bad dash =
    config_load_args-wrong (alone k ∷ flags) wrong args (config_set key (codes "true") c) h bad dash
