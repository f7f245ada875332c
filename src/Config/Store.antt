-- ===== src/Config/Store.antt =====
-- The settings as a map with hooks.
use mathlib.Core.Option
use musicd.Base.{
  ℕ, ◌≡◌, refl, ap, ◌∙◌, true, false, List, [], ◌∷◌, ◌++◌, Option, none, some, inl, inr, Bool-cases,
  Option-cases, if◌then◌else◌, Bytes, equal, equal_iff, equal_self,
}
use musicd.Config.{
  Setting, Config, setting_by_key, update, call_hook, new_setting, config_set, config_set_hook,
  config_get_value,
}

equal-other : (a b k : Bytes) → equal a b ≡ true → equal b k ≡ false → equal a k ≡ false
equal-other a b k h n = rw ((equal_iff a b).0 h) n

module _ (key k : Bytes) (f : Setting → Setting)
    (same_key : (s : Setting) → (f s).key ≡ s.key) where
  setting_by_key-update :
      (ss : List Setting)
      → setting_by_key key (update key f ss) ≡ Option.map f (setting_by_key key ss)
  unfolding setting_by_key update
  setting_by_key-update [] = refl
  setting_by_key-update (s ∷ ss) = elim (Bool-cases (equal s.key key)) [
    | inl h ↦ rw h (rw (same_key s) (rw h refl))
    | inr h ↦ rw h (rw h (setting_by_key-update ss))
  ]

  setting_by_key-update_other :
      (ss : List Setting)
      → equal key k ≡ false
      → setting_by_key k (update key f ss) ≡ setting_by_key k ss
  unfolding setting_by_key update
  setting_by_key-update_other [] n = refl
  setting_by_key-update_other (s ∷ ss) n = elim (Bool-cases (equal s.key key)) [
    | inl h ↦ let other = equal-other s.key key k h n in rw h (rw (same_key s) (rw other refl))
    | inr h ↦
        rw h (ap (λ o. if equal s.key k then some s else o) (setting_by_key-update_other ss n))
  ]

setting_by_key-append :
    (k : Bytes) (ss : List Setting) (s : Setting)
    → setting_by_key k (ss ++ (s ∷ [])) ≡ elim (setting_by_key k ss) [
      | none ↦ if equal s.key k then some s else none
      | some t ↦ some t
    ]
unfolding setting_by_key
setting_by_key-append k [] s = refl
setting_by_key-append k (t ∷ ss) s = elim (Bool-cases (equal t.key k)) [
  | inl h ↦ rw h refl
  | inr h ↦ rw h (setting_by_key-append k ss s)
]

-- The setting that `config_set` leaves for a key, and what the others keep.
setting_by_key-config_set :
    (key value : Bytes) (c : Config)
    → setting_by_key key (config_set key value c).settings
      ≡ some (elim (setting_by_key key c.settings) [
        | none ↦ new_setting key value
        | some s ↦ record s { value = value }
      ])
unfolding config_set
setting_by_key-config_set key value c = elim (Option-cases (setting_by_key key c.settings)) [
  | inl e ↦
      rw (e, config_set)
        (setting_by_key-append key c.settings (new_setting key value)
          ∙ rw e (rw (equal_self key) refl))
  | inr (s, e) ↦
      rw (e, config_set)
        (setting_by_key-update key key (λ (s : Setting). record s { value = value }) (λ s. refl)
            c.settings
          ∙ rw e refl)
]

setting_by_key-append_other :
    (k : Bytes) (ss : List Setting) (s : Setting)
    → equal s.key k ≡ false
    → setting_by_key k (ss ++ (s ∷ [])) ≡ setting_by_key k ss
unfolding setting_by_key
setting_by_key-append_other k [] s n = rw n refl
setting_by_key-append_other k (t ∷ ss) s n =
    ap (λ o. if equal t.key k then some t else o) (setting_by_key-append_other k ss s n)

setting_by_key-config_set_other :
    (key k value : Bytes) (c : Config)
    → equal key k ≡ false
    → setting_by_key k (config_set key value c).settings ≡ setting_by_key k c.settings
unfolding config_set
setting_by_key-config_set_other key k value c n =
    elim (Option-cases (setting_by_key key c.settings)) [
      | inl e ↦
          rw (e, config_set) (setting_by_key-append_other k c.settings (new_setting key value) n)
      | inr (s, e) ↦
          rw (e, config_set)
            (setting_by_key-update_other key k (λ (s : Setting). record s { value = value })
              (λ s. refl) c.settings n)
    ]

module _ (key value : Bytes) where
  value_set :
      (o : Option Setting)
      → ◌≡◌ {A = Option Bytes}
          (some (
            Setting.value
              (elim o [ none ↦ new_setting key value | some s ↦ record s { value = value } ])))
          (some value)
  value_set none = refl
  value_set (some s) = refl

-- After `config_set` a lookup of the key finds the value, and any other key what it found before.
pub config_get_value-config_set :
    (key k value : Bytes) (c : Config)
    → config_get_value k (config_set key value c)
      ≡ (if equal key k then some value else config_get_value k c)
unfolding config_get_value
config_get_value-config_set key k value c = elim (Bool-cases (equal key k)) [
  | inl h ↦
      let e : key ≡ k = (equal_iff key k).0 h in
      rw h (
        rw (← e) (
          rw (setting_by_key-config_set key value c)
            (value_set key value (setting_by_key key c.settings))))
  | inr h ↦
      rw h (
        ap (Option.map (λ (s : Setting). s.value))
          (setting_by_key-config_set_other key k value c h))
]

-- A setting of the key is there, with this hook.
IsHooked : Bytes → ℕ → Config → Type 0
IsHooked key hook c =
    (s : Setting) × (setting_by_key key c.settings ≡ some s) × (s.hook ≡ some hook)

config_set-IsHooked :
    (key k value : Bytes) (hook : ℕ) (c : Config)
    → IsHooked k hook c
    → IsHooked k hook (config_set key value c)
unfolding IsHooked
config_set-IsHooked key k value hook c (s, e, h) = elim (Bool-cases (equal key k)) [
  | inl same ↦
      let there : setting_by_key key c.settings ≡ some s = rw ((equal_iff key k).0 same) e in
      let set : setting_by_key key (config_set key value c).settings
          ≡ some (record s { value = value }) =
        setting_by_key-config_set key value c ∙ rw there refl in
      (record s { value = value }, rw⁻¹ ((equal_iff key k).0 same) set, h)
  | inr other ↦ (s, setting_by_key-config_set_other key k value c other ∙ e, h)
]

config_set_hook-IsHooked :
    (key : Bytes) (hook : ℕ) (c : Config) → IsHooked key hook (config_set_hook key hook c)
unfolding IsHooked config_set_hook
config_set_hook-IsHooked key hook c = elim (Option-cases (setting_by_key key c.settings)) [
  | inl e ↦
      let there : setting_by_key key (config_set key [] c).settings ≡ some (new_setting key []) =
        setting_by_key-config_set key [] c ∙ rw e refl in
      let set = λ (s : Setting). record s { hook = some hook } in
      let found = setting_by_key-update key key set (λ s. refl) (config_set key [] c).settings in
      (set (new_setting key []), rw e (found ∙ ap (Option.map set) there), refl)
  | inr (s, e) ↦
      let set = λ (s : Setting). record s { hook = some hook } in
      let found = setting_by_key-update key key set (λ s. refl) c.settings in
      (set s, rw e (found ∙ ap (Option.map set) e), refl)
]

abbrev pub set_all : List (Bytes × Bytes) → Config → Config
set_all [] c = c
set_all ((key, value) ∷ sets) c = set_all sets (config_set key value c)

set_all-IsHooked :
    (k : Bytes) (hook : ℕ) (sets : List (Bytes × Bytes)) (c : Config)
    → IsHooked k hook c
    → IsHooked k hook (set_all sets c)
set_all-IsHooked k hook [] c h = h
set_all-IsHooked k hook ((key, value) ∷ sets) c h =
    set_all-IsHooked k hook sets (config_set key value c) (config_set-IsHooked key k value hook c h)

-- Once a hook is set for a key, also for one that has no setting yet, every `config_set` of the key
-- calls the hook with the value, whatever was set in between.
pub config_set-config_set_hook :
    (key value : Bytes) (hook : ℕ) (sets : List (Bytes × Bytes)) (c : Config)
    → (config_set key value (set_all sets (config_set_hook key hook c))).calls
      ≡ (hook, value) ∷ (set_all sets (config_set_hook key hook c)).calls
unfolding config_set IsHooked call_hook
config_set-config_set_hook key value hook sets c =
    let (s, e, h) =
      set_all-IsHooked key hook sets (config_set_hook key hook c)
        (config_set_hook-IsHooked key hook c) in
    rw (e, config_set) (rw h refl)
