-- ===== src/Config/Tests.antt =====
-- A small configuration, and instances of the theorems.
use musicd.Base.{
  ◌≡◌, refl, true, false, List, [], ◌∷◌, ◌++◌, none, some, Bytes, codes, equal, if◌then◌else◌,
  arith,
}
use musicd.Memory.{done}
use musicd.Config.{
  Config, config_init, config_set, config_set_hook, config_get_value, config_load_file,
  config_load_args, load_line, read_line, config_to_path, trim_home, setting_by_key, update,
}
use musicd.Config.Store.{set_all, config_get_value-config_set, config_set-config_set_hook}
use musicd.Config.Lines.{line_of, read_line-line_of}
use musicd.Config.File.{
  print_file, load_all, lines_from, config_load_file-load_all, config_load_file-print_file,
  load_line_indented,
}
use musicd.Config.Args.{
  Flag, with_value, alone, print_args, settings_of, config_load_args-print_args,
  config_load_args-wrong,
}

abbrev port : Config
port = config_set (codes "port") (codes "6800") config_init

config_get_value-config_set_example :
    config_get_value (codes "port") (config_set (codes "port") (codes "80") port) ≡ (
      if equal (codes "port") (codes "port")
      then some (codes "80")
      else config_get_value (codes "port") port)
config_get_value-config_set_example =
    config_get_value-config_set (codes "port") (codes "port") (codes "80") port

abbrev between : List (Bytes × Bytes)
between = (codes "bind", codes "any") ∷ []

config_set-config_set_hook_example :
    (config_set
      (codes "log")
      (codes "debug")
      (set_all between (config_set_hook (codes "log") 1 port))).calls
    ≡ (1, codes "debug") ∷ (set_all between (config_set_hook (codes "log") 1 port)).calls
config_set-config_set_hook_example =
    config_set-config_set_hook (codes "log") (codes "debug") 1 between port

read_line-line_of_example : read_line (codes "a b\nc") ≡ done (line_of (codes "a b\nc"))
read_line-line_of_example = read_line-line_of (codes "a b\nc")

config_load_file-load_all_example :
    config_load_file (some (codes "# x\nport 80\nbind")) config_init
    ≡ done (load_all (lines_from [] (codes "# x\nport 80\nbind")) config_init, true)
config_load_file-load_all_example =
    config_load_file-load_all (codes "# x\nport 80\nbind") config_init

abbrev entries : List (Bytes × Bytes)
entries = (codes "port", codes "80") ∷ (codes "x", []) ∷ []

config_load_file-print_file_example :
    config_load_file (some (print_file entries)) config_init
    ≡ done (set_all entries config_init, true)
config_load_file-print_file_example = config_load_file-print_file entries config_init (
  (omega arith, (refl, (refl, (refl, (refl, (refl, tt))))), (refl, (refl, (refl, tt)))),
  ((omega arith, (refl, (refl, tt)), tt), tt),
)

load_line_indented_example :
    load_line (b' ' ∷ ((codes "por" ++ codes "t") ++ (b' ' ∷ codes "80"))) config_init
    ≡ config_set (codes "por" ++ codes "t") (b't' ∷ b' ' ∷ codes "80") config_init
load_line_indented_example =
    load_line_indented (codes "por") (codes "80") b't' config_init
      (refl, (refl, (refl, (refl, (refl, tt)))))

abbrev flags : List Flag
flags = alone (codes "daemon") ∷ with_value (codes "port") (codes "80") ∷ []

config_load_args-print_args_example :
    config_load_args (print_args flags) config_init
    ≡ (set_all (settings_of flags) config_init, true)
config_load_args-print_args_example = config_load_args-print_args flags config_init (tt, (refl, tt))

config_load_args-wrong_example :
    config_load_args (print_args flags ++ (codes "-x" ∷ [])) config_init
    ≡ (set_all (settings_of flags) config_init, false)
config_load_args-wrong_example =
    config_load_args-wrong flags (codes "-x") [] config_init (tt, (refl, tt)) refl refl

at_home :
    config_to_path
      (some (codes "/home/me/"))
      (codes "dir")
      (config_set (codes "dir") (codes "~/music") config_init)
    ≡ done (
      some (codes "/home/me/music"),
      record config_init {
        settings =
            record {
              key = codes "dir";
              value = codes "~/music";
              path_value = some (codes "/home/me/music");
              hook = none;
            }
            ∷ [];
      },
    )
unfolding config_to_path config_set config_init trim_home setting_by_key update equal
at_home = refl
