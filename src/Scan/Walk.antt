-- ===== src/Scan/Walk.antt =====
-- src/scan.c: the walk over the music directory. The file system, the library's functions, the readers
-- of images and tracks and the flag `interrupted` are an `Env`; `Store` is what they change, and what
-- they read may change with it. `Song` stands for `track_t`. The
-- library's rows are read before the callbacks change them.
use musicd.Base.{
  ℕ, zero, suc, Bool, true, false, not, ◌&&◌, List, [], ◌∷◌, ◌++◌, map, Option, none, some, ◌==◌,
  if◌then◌else◌, Bytes, codes, equal, drop, peek, ℤ, pos, negsuc, is_zero, is_positive,
}
use musicd.Memory.{Run, done, fault, endless, ◌>>=◌}
use musicd.Strings.Search.{tolower}
use musicd.Scan.{Image, update_albumimg}

-- What `stat` tells.
pub record Stat : Type 0 where
  pub is_dir : Bool
  pub is_reg : Bool
  pub mtime : ℤ

-- `library_directory_t`
pub record Directory : Type 0 where
  pub id : ℤ
  pub path : Bytes
  pub mtime : ℤ

-- `library_file_t`
pub record File : Type 0 where
  pub id : ℤ
  pub path : Bytes
  pub mtime : ℤ
  pub directory : ℤ

pub record Env (Store Song : Type 0) : Type 0 where
  pub stat : Bytes → Store → Option Stat
  -- the entries of a directory that can be opened
  pub entries : Bytes → Store → Option (List Bytes)
  pub interrupted : Store → Bool
  pub image_prefixes : List Bytes
  pub same_time : ℤ → ℤ → Bool
  pub cue_read : Bytes → ℤ → Store → Store
  -- FreeImage's opinion of the name and of the content
  pub is_image_name : Bytes → Bool
  pub is_image : Bytes → Bool
  pub tracks_from_path : Bytes → Option (List Song)
  pub library_track_add : Song → ℤ → Store → Store
  pub scan_track_added : Store → Store
  pub library_image_add : ℤ → Store → Store
  pub library_file : Bytes → ℤ → Store → ℤ × Store
  pub library_file_mtime : ℤ → Store → ℤ
  pub library_file_mtime_set : ℤ → ℤ → Store → Store
  pub library_file_delete : ℤ → Store → Store
  pub library_file_clear : ℤ → Store → Store
  pub library_directory : Bytes → ℤ → Store → ℤ × Store
  pub library_directory_mtime : ℤ → Store → ℤ
  pub library_directory_mtime_set : ℤ → ℤ → Store → Store
  pub library_directory_delete : ℤ → Store → Store
  pub library_directory_tracks_count : ℤ → Store → ℤ
  pub directories : ℤ → Store → List Directory
  pub files_by_directory : ℤ → Store → List File
  pub images_by_album : ℤ → Store → List Image
  pub library_album_by_directory : ℤ → Store → ℤ
  pub library_image_album_set_by_directory : ℤ → ℤ → Store → Store
  pub library_album_image_set : ℤ → ℕ → Store → Store

-- What stands behind the last `.`, none without one.
unfoldable pub behind_dot : Bytes → Option Bytes
behind_dot [] = none
behind_dot (c ∷ s) = elim (behind_dot s) [
  | some rest ↦ some rest
  | none ↦ if c == b'.' then some s else none
]

-- Without a dot the loop stops at the first byte, which is passed over too.
unfoldable pub extension : Bytes → Bytes
unfolding behind_dot
extension path = elim (behind_dot path) as (λ o. Bytes) [ none ↦ drop 1 path | some rest ↦ rest ]

-- `!strcasecmp(a, b)`
unfoldable pub equal_nocase : Bytes → Bytes → Bool
unfolding tolower
equal_nocase a b = equal (map tolower a) (map tolower b)

module _ {Store Song : Type 0} (env : Env Store Song) where
  -- The loop over the tracks of a file; `file` is 0 where there are none.
  unfoldable pub add_songs : Bytes → ℤ → List Song → ℤ → Store → ℤ × Store
  add_songs path directory [] file st = (file, st)
  add_songs path directory (song ∷ songs) file st =
      let (file', st') =
        env.library_file path (pos 0)
          (env.scan_track_added (env.library_track_add song directory st)) in
      add_songs path directory songs file' st'

  unfoldable pub scan_file : Bytes → ℤ → Store → ℤ × Store
  unfolding extension equal_nocase add_songs
  scan_file path directory st = elim (equal_nocase (extension path) (codes "cue")) [
    | true ↦ (pos 0, env.cue_read path directory st)
    | false ↦ elim (env.is_image_name path) [
      | true ↦ elim (env.is_image path) [
        | false ↦ (pos 0, st)
        | true ↦
            let (file, st') = env.library_file path directory st in
            (file, env.library_image_add file st')
      ]
      | false ↦ elim (env.tracks_from_path path) [
        | none ↦ (pos 0, st)
        | some songs ↦ add_songs path directory songs (pos 0) st
      ]
    ]
  ]

  -- The end of the loop of `iterate_directory`, for a regular file.
  unfoldable pub visit_file : Bytes → ℤ → ℤ → Store → Store
  unfolding scan_file
  visit_file path mtime dir_id st =
      let (known, st₁) = env.library_file path (pos 0) st in
      if is_positive known && env.same_time (env.library_file_mtime known st₁) mtime
      then st₁
      else (let (file, st₂) = scan_file path dir_id st₁ in
          if is_zero file then st₂ else env.library_file_mtime_set file mtime st₂)

  -- The loop of `iterate_directory`; `scan` is `scan_directory`.
  unfoldable pub iterate_entries :
      (Bytes → ℤ → Store → Run Store) → Bytes → ℤ → List Bytes → Store → Run Store
  unfolding visit_file
  iterate_entries scan dirpath dir_id [] st = done st
  iterate_entries scan dirpath dir_id (name ∷ names) st = elim (env.interrupted st) [
    | true ↦ done st
    | false ↦ elim (peek name == b'.') [
      | true ↦ iterate_entries scan dirpath dir_id names st
      | false ↦ elim (env.stat (dirpath ++ (codes "/" ++ name)) st) [
        | none ↦ iterate_entries scan dirpath dir_id names st
        | some status ↦ elim status.is_dir [
          | true ↦
              scan (dirpath ++ (codes "/" ++ name)) dir_id st
              >>= iterate_entries scan dirpath dir_id names
          | false ↦ iterate_entries scan dirpath dir_id names (
              if status.is_reg
              then visit_file (dirpath ++ (codes "/" ++ name)) status.mtime dir_id st
              else st)
        ]
      ]
    ]
  ]

  unfoldable pub iterate_directory : (Bytes → ℤ → Store → Run Store) → Bytes → ℤ → Store → Run Store
  unfolding iterate_entries
  iterate_directory scan dirpath dir_id st = elim (env.entries dirpath st) [
    | none ↦ done st
    | some names ↦ iterate_entries scan dirpath dir_id names st
  ]

  unfoldable pub scan_files_cb : File → Store → Store
  unfolding scan_file
  scan_files_cb file st = elim (env.stat file.path st) [
    | none ↦ env.library_file_delete file.id st
    | some status ↦
        if env.same_time file.mtime status.mtime
        then st
        else (let (scanned, st') =
              scan_file file.path file.directory (env.library_file_clear file.id st) in
            if is_zero scanned
            then env.library_file_delete file.id st'
            else env.library_file_mtime_set file.id status.mtime st')
  ]

  unfoldable pub iterate_files : List File → Store → Store
  unfolding scan_files_cb
  iterate_files [] st = st
  iterate_files (file ∷ files) st = iterate_files files (scan_files_cb file st)

  unfoldable pub assign_images_cb : ℤ → List Directory → Store → Store
  assign_images_cb album [] st = st
  assign_images_cb album (directory ∷ directories) st = assign_images_cb album directories (
      if is_positive (env.library_directory_tracks_count directory.id st)
      then env.library_image_album_set_by_directory directory.id album st
      else st)

  unfoldable pub assign_images : ℤ → Store → Store
  unfolding assign_images_cb
  assign_images directory st =
      let album = env.library_album_by_directory directory st in
      if not (is_positive album)
      then st
      else (let st₁ = env.library_image_album_set_by_directory directory album st in
          let st₂ = assign_images_cb album (env.directories directory st₁) st₁ in
          elim (update_albumimg env.image_prefixes (env.images_by_album album st₂))
            as (λ o. Store) [
              | none ↦ st₂
              | some image ↦ env.library_album_image_set album image st₂
            ])

  -- `library_iterate_directories`: a callback that returns false ends it.
  unfoldable pub iterate_directories :
      (Directory → Store → Run (Bool × Store)) → List Directory → Store → Run Store
  iterate_directories callback [] st = done st
  iterate_directories callback (directory ∷ directories) st = do
    (go_on, st') ← callback directory st
    elim go_on [ true ↦ iterate_directories callback directories st' | false ↦ done st' ]

  -- The files of a directory, recorded and present, and then its images.
  unfoldable pub scan_content : (Bytes → ℤ → Store → Run Store) → Bytes → ℤ → Store → Run Store
  unfolding iterate_directory iterate_files assign_images
  scan_content scan dirpath dir_id st = do
    st' ←
        iterate_directory scan dirpath dir_id (iterate_files (env.files_by_directory dir_id st) st)
    done (assign_images dir_id st')

  -- The path is looked up with the parent -1, which adds nothing, and added where it is not known.
  unfoldable mutual
    pub scan_directory : ℕ → Bytes → ℤ → Store → Run Store
    scan_directory zero dirpath parent st = fault endless
    scan_directory (suc depth) dirpath parent st =
        let (known, st₁) = env.library_directory dirpath (negsuc 0) st in
        elim (env.stat dirpath st₁) [
          | none ↦ done (if is_zero known then st₁ else env.library_directory_delete known st₁)
          | some status ↦ elim (is_positive known) [
            | true ↦ do
              st₂ ← iterate_directories (scan_directory_cb depth) (env.directories known st₁) st₁
              elim (env.same_time (env.library_directory_mtime known st₂) status.mtime) [
                | true ↦ done st₂
                | false ↦ do
                  st₃ ← scan_content (scan_directory depth) dirpath known st₂
                  done (
                      if env.interrupted st₃
                      then st₃
                      else env.library_directory_mtime_set known status.mtime st₃)
              ]
            | false ↦ do
              let (added, st₂) = env.library_directory dirpath parent st₁
              st₃ ← scan_content (scan_directory depth) dirpath added st₂
              done (
                  if env.interrupted st₃
                  then st₃
                  else env.library_directory_mtime_set added status.mtime st₃)
          ]
        ]

    pub scan_directory_cb : ℕ → Directory → Store → Run (Bool × Store)
    scan_directory_cb zero directory st = fault endless
    scan_directory_cb (suc depth) directory st = elim (env.stat directory.path st) [
      | none ↦ done (true, env.library_directory_delete directory.id st)
      | some status ↦ elim (env.interrupted st) [
        | true ↦ done (false, st)
        | false ↦ do
          st₁ ← iterate_directories (scan_directory_cb depth) (env.directories directory.id st) st
          elim (env.same_time directory.mtime status.mtime) [
            | true ↦ done (true, st₁)
            | false ↦ do
              st₂ ← scan_content (scan_directory depth) directory.path directory.id st₁
              done (
                  if env.interrupted st₂
                  then (false, st₂)
                  else (true, env.library_directory_mtime_set directory.id status.mtime st₂))
          ]
      ]
    ]
