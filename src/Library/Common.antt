-- ===== src/Library/Common.antt =====
-- src/library.c: library_album_by_directory gives an album that most tracks of a directory have.
use musicd.Base.{◌≤◌, List, All, ℤ}
use musicd.Library.Rows.{TrackRow}
use musicd.Library.Images.{albumid_of, group_size}

-- The album has as many of the rows as any other.
abbrev pub IsMost : List TrackRow → ℤ → List TrackRow → Type 0
IsMost all album rows = All (λ r. group_size (albumid_of r) all ≤ group_size album all) rows
