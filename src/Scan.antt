-- ===== src/Scan.antt =====
-- src/scan.c: the preferred prefixes of image names, the choice of an album's image, and the thread
-- that scans. Texts are bytes without NUL. `strcasecmp` is read in the C locale. The library's rows
-- are numbered from 1.
pub mod Prefixes
pub mod Images
pub mod Thread
pub mod Walk
pub mod Hidden
mod Tests
use musicd.Base.{
  ℕ, zero, suc, ◌+◌, ◌-◌, ◌^◌, Bool, true, false, not, ◌&&◌, ◌||◌, List, [], ◌∷◌, ◌++◌, Option,
  none, some, is_some, ltb, leb, ◌==◌, if◌then◌else◌, Bytes, length, peek,
}
use mathlib.Core.List.{reverse}
use musicd.Memory.{Run, done, fault, freed_twice, ◌>>=◌}
use musicd.Strings.Search.{tolower, begins_nocase, strextract}

-- The static `image_prefixes`: NULL, an array of strings, or an array that was freed.
pub data ImagePrefixes : Type 0 where
  unset freed : ImagePrefixes
  array : List Bytes → ImagePrefixes

-- The commas of the first loop.
unfoldable pub commas : Bytes → ℕ
commas [] = 0
commas (c ∷ p) = if c == b',' then suc (commas p) else commas p

-- The second loop at `p`; `piece` is what stands between `prefix` and `p`.
unfoldable pub pieces : Bytes → Bytes → List Bytes
pieces piece [] = piece ∷ []
pieces piece (c ∷ p) = elim (c == b',') [
  | true ↦ piece ∷ pieces [] p
  | false ↦ pieces (piece ++ (c ∷ [])) p
]

-- It begins behind the first byte, and is not entered for the empty text.
unfoldable pub split_prefixes : Bytes → List Bytes
unfolding pieces
split_prefixes [] = []
split_prefixes (c ∷ p) = pieces (c ∷ []) p

-- The strings of an array that was freed would be freed again.
unfoldable pub scan_image_prefix_changed : Option Bytes → ImagePrefixes → Run ImagePrefixes
unfolding split_prefixes
scan_image_prefix_changed prefix freed = fault freed_twice
scan_image_prefix_changed none unset = done unset
scan_image_prefix_changed none (array strings) = done freed
scan_image_prefix_changed (some prefix) _ = done (array (split_prefixes prefix))

-- `library_image_t`
pub record Image : Type 0 where
  pub id : ℕ
  pub path : Bytes

-- The backward loop for the name: `before` is what stands before `p1`, last byte first.
unfoldable pub name_from : Bytes → Bytes → Option Bytes → Bytes
name_from [] p1 p2 = strextract p1 (elim p2 as (λ p. Bytes) [ none ↦ [] | some p ↦ p ])
name_from (c ∷ before) p1 p2 =
    let here = strextract p1 (elim p2 as (λ p. Bytes) [ none ↦ [] | some p ↦ p ]) in
    let back =
      name_from before (c ∷ p1) (if peek p1 == b'.' && not (is_some p2) then some p1 else p2) in
    if c == b'/' then here else back

-- What is between the last `/` and the last `.` behind it.
unfoldable pub image_name : Bytes → Bytes
unfolding name_from
image_name path = name_from (reverse path) [] none

-- The index of the first prefix that the name begins with, or the number of prefixes.
unfoldable pub level_of : List Bytes → Bytes → ℕ
level_of [] name = 0
level_of (prefix ∷ prefixes) name =
    let rest = level_of prefixes name in if begins_nocase name prefix then 0 else suc rest

-- `strcasecmp(a, b) < 0`
unfoldable pub less_nocase : Bytes → Bytes → Bool
unfolding tolower
less_nocase [] [] = false
less_nocase [] (y ∷ b) = true
less_nocase (x ∷ a) [] = false
less_nocase (x ∷ a) (y ∷ b) =
    ltb (tolower x) (tolower y) || (tolower x == tolower y && less_nocase a b)

-- `struct albumimg_comparison`
pub record Comparison : Type 0 where
  pub id : ℕ
  pub name : Bytes
  pub level : ℕ

-- `prefixes` are those of `image_prefixes`: none where it is NULL.
unfoldable pub update_albumimg_cb : List Bytes → Image → Comparison → Comparison
unfolding image_name level_of less_nocase
update_albumimg_cb prefixes image comparison =
    let name = image_name image.path in
    let level = level_of prefixes name in
    let better =
      if comparison.id == 0
      then true
      else if ltb level comparison.level
      then true
      else if ltb comparison.level level
      then false
      else less_nocase name comparison.name in
    if better then record { id = image.id; name = name; level = level } else comparison

-- `library_iterate_images_by_album`
unfoldable pub compare_images : List Bytes → List Image → Comparison → Comparison
compare_images prefixes [] comparison = comparison
compare_images prefixes (image ∷ images) comparison =
    compare_images prefixes images (update_albumimg_cb prefixes image comparison)

-- The image that `library_album_image_set` is called with, for the album's images.
unfoldable pub update_albumimg : List Bytes → List Image → Option ℕ
unfolding compare_images
update_albumimg prefixes images =
    let comparison =
      compare_images prefixes images (record { id = 0; name = []; level = 2 ^ 31 - 1 }) in
    if ltb 0 comparison.id then some comparison.id else none
