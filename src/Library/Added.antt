-- ===== src/Library/Added.antt =====
-- src/library.c: library_track_add while SQLite does not fail.
use mathlib.Core.Path.{subst}
use musicd.Base.{
  ℕ, suc, ◌≤◌, ◌<◌, ◌^◌, ◌≡◌, refl, sym, ap, ◌∙◌, [], none, some, arith, All, Option-cases, inl,
  inr, ℤ, pos,
}
use musicd.Library.Rows.{Track, Tables}
use musicd.Library.Counts.{
  IsRooted, Below, top, IsCounted, add_track-IsCounted, increment-IsCounted, All-weaken,
}
use musicd.Library.Statements.{Db, succeeds, prepare_query, execute, execute_insert}
use musicd.Library.Lookup.{at_working, working}
use musicd.Library.Files.{
  library_file, library_track_add, insert_track, increment_album_tracks, artist_id, album_id,
  optional, fresh_track,
}
use musicd.Library.Named.{
  IsBeside, library_file-IsBeside, IsBeside-IsCounted, artist_id-IsBeside, cuefile-IsBeside,
  IsAlbumId, album_id-IsAlbumId,
}

-- SQLite still works, and the albums count their tracks.
abbrev pub IsGood : ℕ → Db → Type 0
IsGood n db = (db.answers ≡ []) × IsCounted n db.tables × IsRooted n db.tables

pub IsRooted-weaken : (n : ℕ) (t : Tables) → IsRooted n t → IsRooted (suc n) t
IsRooted-weaken n t =
    All-weaken (Below n) (Below (suc n)) t.directories (λ r h. (h.0, omega (arith, h.1)))

insert_track-IsGood :
    (n k : ℕ) (track : Track) (t : Tables) (last : ℤ)
    → IsCounted n t
    → IsRooted n t
    → track.albumid ≡ pos k
    → k ≤ top t.albums
    → (track.album ≡ none → k ≡ 0)
    → IsGood n (insert_track track (working t last)).1
unfolding insert_track execute_insert increment_album_tracks prepare_query succeeds execute
insert_track-IsGood n k track t last h d e le z = elim (Option-cases track.album) [
  | inl o ↦
      let zero_id : track.albumid ≡ pos 0 = e ∙ ap pos (z o) in
      rw o
        (refl, add_track-IsCounted n (fresh_track t) (record track { album = none }) t h zero_id, d)
  | inr (name, o) ↦ rw o (
    refl,
    increment-IsCounted n (fresh_track t) k (record track { album = some name }) t h e le,
    d,
  )
]

library_track_add-working :
    (n : ℕ) (track : Track) (directory : ℤ) (t : Tables) (last : ℤ)
    → IsCounted n t
    → IsRooted n t
    → n < 2 ^ 31
    → (track.album ≡ none → track.albumid ≡ pos 0)
    → IsGood (suc n) (library_track_add track directory (working t last)).1
unfolding library_track_add prepare_query succeeds
library_track_add-working n track directory t last h d small zero_id =
    let r₁ : ℤ × Db = library_file track.file directory (working t last) in
    let b₁ : IsBeside t r₁ = library_file-IsBeside track.file directory t last in
    let r₂ : ℤ × Db =
      optional track.cuefile track.cuefileid (λ path. library_file path directory) r₁.1 in
    let b₂ : IsBeside r₁.1.tables r₂ =
      at_working
        (λ db.
          IsBeside db.tables
            (optional track.cuefile track.cuefileid (λ path. library_file path directory) db))
        r₁.1 b₁.quiet (cuefile-IsBeside track.cuefile track.cuefileid directory) in
    let r₃ : ℤ × Db = artist_id track r₂.1 in
    let b₃ : IsBeside r₂.1.tables r₃ =
      at_working (λ db. IsBeside db.tables (artist_id track db)) r₂.1 b₂.quiet
        (artist_id-IsBeside track) in
    let c₃ : IsCounted n r₃.1.tables =
      IsBeside-IsCounted b₃ (IsBeside-IsCounted b₂ (IsBeside-IsCounted b₁ h)) in
    let r₄ : ℤ × Db = album_id track r₃.1 in
    let b₄ : IsAlbumId n track r₃.1.tables r₄ =
      at_working (λ db. IsCounted n db.tables → IsAlbumId n track db.tables (album_id track db))
        r₃.1 b₃.quiet (λ t' last' h'. album_id-IsAlbumId n track t' last' h' small zero_id) c₃ in
    let same : r₄.1.tables.directories ≡ t.directories =
      b₄.same_directories ∙ b₃.same_directories ∙ b₂.same_directories ∙ b₁.same_directories in
    let d₄ : IsRooted (suc n) r₄.1.tables =
      subst (All (Below (suc n))) (sym same) (IsRooted-weaken n t d) in
    let track' : Track = record track {
      fileid = r₁.0;
      cuefileid = r₂.0;
      artistid = r₃.0;
      albumid = r₄.0;
    } in
    at_working
      (λ db.
        IsCounted (suc n) db.tables
        → IsRooted (suc n) db.tables
        → b₄.id ≤ top db.tables.albums
        → IsGood (suc n) (insert_track track' db).1)
      r₄.1 b₄.quiet
      (λ t' last' h' d' le.
        insert_track-IsGood (suc n) b₄.id track' t' last' h' d' b₄.is_id le b₄.none_zero)
      b₄.still_counted d₄ b₄.known

-- Each new album counts its tracks, and each track that is added is counted.
pub library_track_add-IsGood :
    (n : ℕ) (track : Track) (directory : ℤ) (db : Db)
    → IsGood n db
    → n < 2 ^ 31
    → (track.album ≡ none → track.albumid ≡ pos 0)
    → IsGood (suc n) (library_track_add track directory db).1
library_track_add-IsGood n track directory db (quiet, h, rooted) small zero_id =
    at_working
      (λ d.
        IsCounted n d.tables
        → IsRooted n d.tables
        → IsGood (suc n) (library_track_add track directory d).1)
      db quiet
      (λ t last h' rooted'.
        library_track_add-working n track directory t last h' rooted' small zero_id)
      h rooted
