-- ===== src/Scan/Tests.antt =====
-- Image names, prefixes, a chosen image, and instances of the theorems.
use musicd.Base.{
  ℕ, pos, leb, if◌then◌else◌, ◌≡◌, refl, true, false, List, [], ◌∷◌, none, some, arith, Bytes,
  codes, ◌+◌, ◌≤◌, length,
}
use musicd.Memory.{done, fault, freed_twice}
use musicd.Strings.Search.{strextract, tolower, begins_nocase}
use musicd.Scan.{
  Image, image_name, name_from, level_of, less_nocase, update_albumimg, update_albumimg_cb,
  compare_images, freed, commas, split_prefixes, scan_image_prefix_changed,
}
use musicd.Scan.Prefixes.{join, split_prefixes-join}
use musicd.Scan.Images.{IsOneOf, IsBest, update_albumimg-IsBest}
use musicd.Scan.Thread.{
  Scanner, idle_scanner, requested, set_flag, creating, begun, stay, after, Steps, AreAlone,
  IsSound, Steps-IsSound, scan_start_check, scan_start_flag, scan_start_create, begin_scan,
}
use musicd.Scan.Walk.{
  Stat, Env, iterate_entries, iterate_directory, iterate_directories, iterate_files, assign_images,
  scan_content, scan_directory,
}
use musicd.Scan.Hidden.{shown, iterate_entries-shown}

named : image_name (codes "/m/a.b/Cover.front.jpg") ≡ codes "Cover.front"
unfolding image_name name_from strextract
named = refl

split_prefixes-join_example :
    (join (split_prefixes (codes "front,,cover")) ≡ codes "front,,cover")
    × (length (split_prefixes (codes "front,,cover")) + 1 ≤ (1 + commas (codes "front,,cover")) + 1)
split_prefixes-join_example = split_prefixes-join (codes "front,,cover")

-- The array is not forgotten when the prefixes are unset.
unset_twice : scan_image_prefix_changed none freed ≡ fault freed_twice
unfolding scan_image_prefix_changed
unset_twice = refl

abbrev front : Image
front = record { id = 4; path = codes "/m/Front.jpg" }

abbrev images : List Image
images =
    record { id = 3; path = codes "/m/back.jpg" }
    ∷ front
    ∷ record { id = 5; path = codes "/m/scan.png" }
    ∷ []

abbrev prefixes : List Bytes
prefixes = codes "front" ∷ codes "cover" ∷ []

front_chosen : update_albumimg prefixes images ≡ some 4
unfolding update_albumimg update_albumimg_cb compare_images image_name name_from level_of
    less_nocase begins_nocase tolower strextract
front_chosen = refl

update_albumimg-IsBest_example :
    (chosen : Image) × IsOneOf chosen (front ∷ images)
    × IsBest prefixes chosen (front ∷ images)
    × (update_albumimg prefixes (front ∷ images) ≡ some chosen.id)
update_albumimg-IsBest_example =
    update_albumimg-IsBest prefixes front images
      (omega arith, (omega arith, (omega arith, (omega arith, tt))))

-- A scan is asked for, starts, and is asked for again.
abbrev begun_once : Scanner
begun_once =
    begin_scan ((scan_start_create true (scan_start_flag true (scan_start_check idle_scanner))).1)

begun_once-Steps : Steps idle_scanner begun_once
unfolding scan_start_check scan_start_flag scan_start_create
begun_once-Steps =
    after
      (after (after (after stay requested) (set_flag true (omega arith)))
        (creating true (omega arith)))
      (begun (omega arith))

begun_once-AreAlone : AreAlone (after begun_once-Steps requested)
unfolding begun_once-Steps scan_start_check scan_start_flag scan_start_create begin_scan
begun_once-AreAlone = (((((tt, refl), tt), tt), tt), refl)

Steps-IsSound_example : IsSound (scan_start_check begun_once)
Steps-IsSound_example = Steps-IsSound (after begun_once-Steps requested) begun_once-AreAlone

-- Every path of at most four bytes is a directory with a hidden entry and another.
abbrev status : Stat
status = record { is_dir = true; is_reg = false; mtime = pos 1 }

abbrev tree : Env ℕ ℕ
tree = record {
  stat = λ path st. if leb (length path) 4 then some status else none;
  entries = λ path st. some (codes "a" ∷ codes ".h" ∷ []);
  interrupted = λ st. false;
  image_prefixes = prefixes;
  same_time = λ a b. false;
  cue_read = λ path directory st. st;
  is_image_name = λ path. false;
  is_image = λ path. false;
  tracks_from_path = λ path. none;
  library_track_add = λ song directory st. st;
  scan_track_added = λ st. st;
  library_image_add = λ file st. st;
  library_file = λ path directory st. (pos 1, st);
  library_file_mtime = λ file st. pos 0;
  library_file_mtime_set = λ file mtime st. st;
  library_file_delete = λ file st. st;
  library_file_clear = λ file st. st;
  library_directory = λ path parent st. (pos 0, st);
  library_directory_mtime = λ directory st. pos 0;
  library_directory_mtime_set = λ directory mtime st. st + 1;
  library_directory_delete = λ directory st. st;
  library_directory_tracks_count = λ directory st. pos 0;
  directories = λ directory st. [];
  files_by_directory = λ directory st. [];
  images_by_album = λ album st. [];
  library_album_by_directory = λ directory st. pos 0;
  library_image_album_set_by_directory = λ directory album st. st;
  library_album_image_set = λ album image st. st;
}

iterate_entries-shown_example :
    iterate_entries tree
      (scan_directory tree 9)
      (codes "/m")
      (pos 1)
      (shown (codes ".h" ∷ codes "a" ∷ []))
      0
    ≡ iterate_entries tree
        (scan_directory tree 9)
        (codes "/m")
        (pos 1)
        (codes ".h" ∷ codes "a" ∷ [])
        0
iterate_entries-shown_example =
    iterate_entries-shown tree (scan_directory tree 9) (codes "/m") (pos 1)
      (codes ".h" ∷ codes "a" ∷ []) 0

two_finished : scan_directory tree 9 (codes "/m") (pos 0) 0 ≡ done 2
unfolding scan_directory scan_content iterate_directory iterate_entries iterate_files assign_images
    iterate_directories
two_finished = refl
