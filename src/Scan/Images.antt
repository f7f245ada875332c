-- ===== src/Scan/Images.antt =====
-- src/scan.c: the image chosen for an album among its images.
use musicd.Base.{
  ◌<◌, ◌≡◌, ◌⊎◌, refl, inl, inr, true, false, List, [], ◌∷◌, some, arith, All, Bytes, lt→ltb,
}
use musicd.Scan.{
  Image, image_name, level_of, less_nocase, Comparison, update_albumimg_cb, compare_images,
  update_albumimg,
}

-- A lower level, or the same and a name that is smaller up to case.
abbrev pub IsBetter : List Bytes → Image → Image → Type 0
IsBetter prefixes x y =
    let m = level_of prefixes (image_name x.path) in
    let n = level_of prefixes (image_name y.path) in
    (m < n) ⊎ ((m ≡ n) × (less_nocase (image_name x.path) (image_name y.path) ≡ true))

less_nocase_trans :
    (a b c : Bytes) → less_nocase a b ≡ true → less_nocase b c ≡ true → less_nocase a c ≡ true
unfolding less_nocase
less_nocase_trans [] [] c h k = absurd (cc h)
less_nocase_trans [] (y ∷ b) [] h k = absurd (cc k)
less_nocase_trans [] (y ∷ b) (z ∷ c) h k = refl
less_nocase_trans (x ∷ a) [] c h k = absurd (cc h)
less_nocase_trans (x ∷ a) (y ∷ b) [] h k = absurd (cc k)
less_nocase_trans (x ∷ a) (y ∷ b) (z ∷ c) h k = ground (arith, less_nocase_trans a b c)

abbrev pub IsOneOf : Image → List Image → Type 0
IsOneOf image [] = ⊥
IsOneOf image (x ∷ images) = (x ≡ image) ⊎ IsOneOf image images

-- No image of the list is better.
abbrev pub IsBest : List Bytes → Image → List Image → Type 0
IsBest prefixes best images = All (λ x. ¬ IsBetter prefixes x best) images

-- What is recorded of an image.
abbrev recorded : List Bytes → Image → Comparison
recorded prefixes image = record {
  id = image.id;
  name = image_name image.path;
  level = level_of prefixes (image_name image.path);
}

less_nocase-irreflexive : (a : Bytes) → less_nocase a a ≡ false
unfolding less_nocase
less_nocase-irreflexive [] = refl
less_nocase-irreflexive (x ∷ a) = ground (arith, less_nocase-irreflexive a)

irreflexive : (prefixes : List Bytes) (x : Image) → ¬ IsBetter prefixes x x
irreflexive prefixes x h = ground (arith, less_nocase-irreflexive (image_name x.path))

IsBetter-trans :
    (prefixes : List Bytes) (x y z : Image)
    → IsBetter prefixes x y
    → IsBetter prefixes y z
    → IsBetter prefixes x z
IsBetter-trans prefixes x y z h k =
    ground (arith, less_nocase_trans (image_name x.path) (image_name y.path) (image_name z.path))

-- What no image of a list is better than, no image of it is better than what is better.
IsBest-better :
    (prefixes : List Bytes) (image best : Image) (seen : List Image)
    → IsBetter prefixes image best
    → IsBest prefixes best seen
    → IsBest prefixes image seen
IsBest-better prefixes image best [] better h = tt
IsBest-better prefixes image best (x ∷ seen) better (worse, h) = (
  λ k. worse (IsBetter-trans prefixes x image best k better),
  IsBest-better prefixes image best seen better h,
)

-- A numbered image is compared with a numbered one: the better one is recorded.
update_albumimg_cb-IsBetter :
    (prefixes : List Bytes) (image best : Image)
    → 0 < best.id
    → (IsBetter prefixes image best
        × (update_albumimg_cb prefixes image (recorded prefixes best) ≡ recorded prefixes image))
      ⊎ (¬ IsBetter prefixes image best
          × (update_albumimg_cb prefixes image (recorded prefixes best) ≡ recorded prefixes best))
unfolding update_albumimg_cb
update_albumimg_cb-IsBetter prefixes image best numbered = ground arith

-- One of the images from `best` on is recorded in the end, and none of them all is better.
compare_images-IsBest :
    (prefixes : List Bytes) (images seen : List Image) (best : Image)
    → All (λ x. 0 < x.id) images
    → 0 < best.id
    → IsBest prefixes best seen
    → (chosen : Image) × IsOneOf chosen (best ∷ images)
      × (0 < chosen.id)
      × IsBest prefixes chosen seen
      × IsBest prefixes chosen (best ∷ images)
      × (compare_images prefixes images (recorded prefixes best) ≡ recorded prefixes chosen)
unfolding compare_images
compare_images-IsBest prefixes [] seen best numbered n h =
    (best, inl refl, n, h, (irreflexive prefixes best, tt), refl)
compare_images-IsBest prefixes (image ∷ images) seen best (m, numbered) n h =
    elim (update_albumimg_cb-IsBetter prefixes image best n) [
      | inl (better, e) ↦
          let worse : IsBest prefixes image (best ∷ seen) = (
            λ k. irreflexive prefixes best (IsBetter-trans prefixes best image best k better),
            IsBest-better prefixes image best seen better h,
          ) in
          let (chosen, one, k, over_seen, over, f) =
            compare_images-IsBest prefixes images (best ∷ seen) image numbered m worse in
          (chosen, inr one, k, over_seen.1, (over_seen.0, over), rw e f)
      | inr (no_better, e) ↦
          let (chosen, one, k, over_seen, over, f) =
            compare_images-IsBest prefixes images (image ∷ seen) best numbered n (no_better, h) in
          let among : IsOneOf chosen (best ∷ image ∷ images) = elim one [
            | inl same ↦ inl same
            | inr later ↦ inr (inr later)
          ] in
          (chosen, among, k, over_seen.1, (over.0, (over_seen.0, over.1)), rw e f)
    ]

-- For an album that has images, one of them is set as the album's image, and no image of the album is
-- better: has a lower level, that is, an earlier prefix, or the same level and a name that comes first.
pub update_albumimg-IsBest :
    (prefixes : List Bytes) (image : Image) (images : List Image)
    → All (λ x. 0 < x.id) (image ∷ images)
    → (chosen : Image) × IsOneOf chosen (image ∷ images)
      × IsBest prefixes chosen (image ∷ images)
      × (update_albumimg prefixes (image ∷ images) ≡ some chosen.id)
unfolding update_albumimg compare_images update_albumimg_cb
update_albumimg-IsBest prefixes image images (m, numbered) =
    let (chosen, one, k, over_seen, over, f) =
      compare_images-IsBest prefixes images [] image numbered m tt in
    (chosen, one, over, rw f (rw (lt→ltb 0 chosen.id k) refl))
