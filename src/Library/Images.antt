-- ===== src/Library/Images.antt =====
-- src/library.c: images and albums, from library_image_add to library_image_album_set_by_directory.
use musicd.Base.{
  ℕ, Bool, true, false, ◌&&◌, ◌||◌, List, [], ◌∷◌, ◌++◌, map, Option, none, some, if◌then◌else◌,
  ltb, Bytes, ℤ, pos, negsuc,
}
use musicd.Library.Rows.{
  Tables, FileRow, TrackRow, ImageRow, AlbumRow, at, same, holds, keep, count, new_rowid,
  column_int64,
}
use musicd.Library.Statements.{Query, pure, ◌>>=◌, last_insert, prepare_query, execute_insert}
use musicd.Library.Selects.{select_path, select_int, update, iterate, iterate_opaque}
use musicd.Library.Directories.{directory_tracks}

abbrev pub fresh_image : Tables → ℕ
fresh_image t = new_rowid ImageRow.rowid t.images

-- `INSERT INTO images (fileid) VALUES(?)`
abbrev pub add_image : ℤ → ℕ → Tables → Tables
add_image file rowid t = record t {
  images = t.images ++ (record { rowid = rowid; fileid = file; albumid = none } ∷ []);
}

unfoldable pub library_image_add : ℤ → Query ℤ
unfolding prepare_query execute_insert
library_image_add file = do
  prepared ← prepare_query
  elim prepared [
    | false ↦ pure (negsuc 0)
    | true ↦ do
      executed ← execute_insert (λ t. false) fresh_image (add_image file)
      elim executed [ false ↦ pure (negsuc 0) | true ↦ last_insert ]
  ]

-- `library_image_t`
pub record LibraryImage : Type 0 where
  pub id : ℕ
  pub path : Bytes
  pub directory : ℤ
  pub album : ℤ

-- The image with each file that it is of, which is one at most.
unfoldable pub image_files : ImageRow → List FileRow → List LibraryImage
image_files image [] = []
image_files image (file ∷ files) =
    if same image.fileid (pos file.rowid)
    then record {
      id = image.rowid;
      path = file.path;
      directory = file.directoryid;
      album = column_int64 image.albumid;
    }
      ∷ image_files image files
    else image_files image files

-- `images JOIN files ON images.fileid = files.rowid`
unfoldable pub joined_images : List ImageRow → List FileRow → List LibraryImage
unfolding image_files
joined_images [] files = []
joined_images (image ∷ images) files = image_files image files ++ joined_images images files

unfoldable pub library_image_path : ℤ → Query (Option Bytes)
unfolding select_path joined_images
library_image_path image =
    select_path
      λ t. map LibraryImage.path (joined_images (keep (λ r. at r.rowid image) t.images) t.files)

unfoldable pub library_album_image : ℤ → Query ℤ
unfolding select_int
library_album_image album =
    select_int (pos 0) λ t. map AlbumRow.imageid (keep (λ r. at r.rowid album) t.albums)

abbrev pub set_imageid : ℤ → ℤ → AlbumRow → AlbumRow
set_imageid album image row =
    if at row.rowid album then record row { imageid = some image } else row

unfoldable pub library_album_image_set : ℤ → ℤ → Query Unit
unfolding update
library_album_image_set album image =
    update λ t. record t { albums = map (set_imageid album image) t.albums }

unfoldable pub library_iterate_images_by_directory : ℤ → (LibraryImage → Query Bool) → Query Unit
unfolding iterate joined_images
library_iterate_images_by_directory directory callback =
    iterate (λ t. keep (λ i. same i.directory directory) (joined_images t.images t.files)) callback

unfoldable pub library_iterate_images_by_album :
    {Opaque : Type 0} → ℤ → (LibraryImage → Opaque → Bool × Opaque) → Opaque → Query Opaque
unfolding iterate_opaque joined_images
library_iterate_images_by_album album callback opaque =
    iterate_opaque (λ t. joined_images (keep (λ r. holds r.albumid album) t.images) t.files)
      callback opaque

abbrev pub albumid_of : TrackRow → ℤ
albumid_of row = row.track.albumid

-- The number of the rows of a group.
abbrev pub group_size : ℤ → List TrackRow → ℕ
group_size album rows = count (λ r. same (albumid_of r) album) rows

-- The largest group among those that the rows begin; of equal ones, SQLite is free to choose, and
-- the first is taken here.
unfoldable pub largest_group : List TrackRow → List TrackRow → Option ℤ
largest_group all [] = none
largest_group all (row ∷ rows) = elim (largest_group all rows) [
  | none ↦ some (albumid_of row)
  | some album ↦
      if ltb (group_size (albumid_of row) all) (group_size album all)
      then some album
      else some (albumid_of row)
]

-- `GROUP BY tracks.albumid ORDER BY COUNT(tracks.albumid) DESC LIMIT 1`
unfoldable pub most_common : List TrackRow → List (Option ℤ)
unfolding largest_group
most_common rows = elim (largest_group rows rows) as (λ _. List (Option ℤ)) [
  | none ↦ []
  | some album ↦ some album ∷ []
]

unfoldable pub library_album_by_directory : ℤ → Query ℤ
unfolding select_int most_common directory_tracks
library_album_by_directory directory =
    select_int (pos 0) λ t. most_common (directory_tracks directory t t.directories)

-- `fileid IN (SELECT rowid FROM files WHERE directoryid = ?)`
unfoldable pub in_directory : ℤ → List FileRow → ImageRow → Bool
in_directory directory [] image = false
in_directory directory (file ∷ files) image =
    (same file.directoryid directory && same image.fileid (pos file.rowid))
    || in_directory directory files image

unfoldable pub library_image_album_set_by_directory : ℤ → ℤ → Query Unit
unfolding update in_directory
library_image_album_set_by_directory directory album = update λ t. record t {
  images =
      map
        (λ (r : ImageRow).
          if in_directory directory t.files r then record r { albumid = some album } else r)
        t.images;
}
