-- ===== src/Library/Named.antt =====
-- src/library.c: the ids that library_track_add looks up or makes, while SQLite does not fail.
use musicd.Base.{
  ℕ, suc, ◌≤◌, ◌<◌, ◌^◌, ◌≡◌, refl, sym, ◌⊎◌, List, [], ◌∷◌, ◌++◌, map, Option, none, some, arith,
  All, All-append, Bool-cases, Option-cases, inl, inr, Bytes, equal, ℤ, pos, negsuc,
}
use musicd.Library.Rows.{Track, AlbumRow, Tables}
use musicd.Library.Counts.{IsCount, Known, top, IsCounted, count_unknown, All-weaken, largest_last}
use musicd.Library.Statements.{
  Db, succeeds, prepare_query, execute_insert, scalar_insert, execute_scalar, albums_name, fields,
  rowids_of, field_rowid, field_rowid_create,
}
use musicd.Library.Lookup.{working, field_rowid_create_found, field_rowid_create_new}
use musicd.Library.Files.{library_file, artist_id, album_id, optional, add_album, fresh_album}

-- The call comes back with the same albums and tracks, and SQLite still working.
pub record IsBeside {A : Type 0} (t : Tables) (r : A × Db) : Type 0 where
  pub quiet : r.1.answers ≡ []
  pub same_albums : r.1.tables.albums ≡ t.albums
  pub same_tracks : r.1.tables.tracks ≡ t.tracks
  pub same_directories : r.1.tables.directories ≡ t.directories

pub library_file-IsBeside :
    (path : Bytes) (directory : ℤ) (t : Tables) (last : ℤ)
    → IsBeside t (library_file path directory (working t last))
unfolding library_file field_rowid execute_scalar prepare_query succeeds scalar_insert
    execute_insert
library_file-IsBeside path directory t last = record {
  quiet = ground arith;
  same_albums = ground arith;
  same_tracks = ground arith;
  same_directories = ground arith;
}

pub IsBeside-IsCounted :
    {A : Type 0} {n : ℕ} {t : Tables} {r : A × Db}
    → IsBeside t r
    → IsCounted n t
    → IsCounted n r.1.tables
IsBeside-IsCounted {r} b h = record {
  counted = rw (b.same_albums, b.same_tracks) h.counted;
  known = rw (b.same_albums, b.same_tracks) h.known;
  positive = rw b.same_albums h.positive;
  bounded = rw b.same_albums h.bounded;
}

pub artist_id-IsBeside :
    (track : Track) (t : Tables) (last : ℤ) → IsBeside t (artist_id track (working t last))
unfolding artist_id optional field_rowid_create field_rowid execute_scalar prepare_query succeeds
    scalar_insert execute_insert
artist_id-IsBeside track t last = elim (Option-cases track.artist) [
  | inl e ↦ record {
    quiet = ground (arith, e);
    same_albums = ground (arith, e);
    same_tracks = ground (arith, e);
    same_directories = ground (arith, e);
  }
  | inr (name, e) ↦ record {
    quiet = ground (arith, e);
    same_albums = ground (arith, e);
    same_tracks = ground (arith, e);
    same_directories = ground (arith, e);
  }
]

pub cuefile-IsBeside :
    (text : Option Bytes) (id directory : ℤ) (t : Tables) (last : ℤ)
    → IsBeside t (optional text id (λ path. library_file path directory) (working t last))
unfolding optional
cuefile-IsBeside none id directory t last = record {
  quiet = refl;
  same_albums = refl;
  same_tracks = refl;
  same_directories = refl;
}
cuefile-IsBeside (some path) id directory t last = library_file-IsBeside path directory t last

-- What a lookup finds is the rowid of an album.
found_album :
    (value : Bytes) (albums : List AlbumRow)
    → All (λ (a : AlbumRow). 1 ≤ a.rowid) albums
    → (rowids_of value (map (λ (r : AlbumRow). (r.rowid, r.name)) albums) ≡ [])
      ⊎ ((k : ℕ) × (rest : List (Option ℤ)) × (rowids_of value
              (map (λ (r : AlbumRow). (r.rowid, r.name)) albums)
            ≡ some (pos k) ∷ rest)
          × (1 ≤ k)
          × (k ≤ top albums))
unfolding rowids_of
found_album value [] h = inl refl
found_album value (a ∷ albums) h = elim (Bool-cases (equal a.name value)) [
  | inl e ↦ inr (
    a.rowid,
    rowids_of value (map (λ (r : AlbumRow). (r.rowid, r.name)) albums),
    rw e refl,
    h.0,
    ground arith,
  )
  | inr e ↦ elim (found_album value albums h.1) [
    | inl none_there ↦ inl (rw e none_there)
    | inr (k, rest, found, from, le) ↦ inr (k, rest, rw e found, from, ground arith)
  ]
]

Known-weaken : (m n : ℕ) (z : ℤ) → m ≤ n → Known m z → Known n z
Known-weaken m n (pos k) le h = omega arith
Known-weaken m n (negsuc k) le h = absurd h

top-add_album :
    (name : Bytes) (t : Tables) → top (add_album name (fresh_album t) t).albums ≡ suc (top t.albums)
top-add_album name t =
    let row : AlbumRow = record {
      rowid = fresh_album t;
      name = name;
      imageid = none;
      tracks = 0;
    } in
    largest_last AlbumRow.rowid t.albums row (omega arith)

-- A new album counts no tracks.
add_album-IsCounted :
    (name : Bytes) (n : ℕ) (t : Tables)
    → IsCounted n t
    → IsCounted (suc n) (add_album name (fresh_album t) t)
add_album-IsCounted name n t h =
    let row : AlbumRow = record {
      rowid = fresh_album t;
      name = name;
      imageid = none;
      tracks = 0;
    } in
    let last : top (t.albums ++ (row ∷ [])) ≡ suc (top t.albums) = top-add_album name t in
    record {
      counted =
          All-append (IsCount t.tracks) t.albums (row ∷ []) h.counted
            (sym (count_unknown (top t.albums) (fresh_album t) t.tracks h.known (omega arith)), tt);
      known =
          All-weaken _ _ t.tracks
            (λ r.
              Known-weaken (top t.albums) (top (t.albums ++ (row ∷ []))) r.track.albumid
                (omega (arith, last)))
            h.known;
      positive =
          All-append (λ (a : AlbumRow). 1 ≤ a.rowid) t.albums (row ∷ []) h.positive
            (omega arith, tt);
      bounded = omega (arith, last, h.bounded);
    }

-- What `album_id` leaves: the tracks as they were, and an id that albums and tracks may have.
pub record IsAlbumId (n : ℕ) (track : Track) (t : Tables) (r : ℤ × Db) : Type 0 where
  pub quiet : r.1.answers ≡ []
  pub same_tracks : r.1.tables.tracks ≡ t.tracks
  pub same_directories : r.1.tables.directories ≡ t.directories
  pub still_counted : IsCounted (suc n) r.1.tables
  pub id : ℕ
  pub is_id : r.0 ≡ pos id
  pub known : id ≤ top r.1.tables.albums
  pub none_zero : track.album ≡ none → id ≡ 0

pub IsCounted-weaken : (m n : ℕ) (t : Tables) → m ≤ n → IsCounted m t → IsCounted n t
IsCounted-weaken m n t le h = record {
  counted = h.counted;
  known = h.known;
  positive = h.positive;
  bounded = omega (arith, h.bounded);
}

pub album_id-IsAlbumId :
    (n : ℕ) (track : Track) (t : Tables) (last : ℤ)
    → IsCounted n t
    → n < 2 ^ 31
    → (track.album ≡ none → track.albumid ≡ pos 0)
    → IsAlbumId n track t (album_id track (working t last))
unfolding album_id optional fields
album_id-IsAlbumId n track t last h small zero_id = elim (Option-cases track.album) [
  | inl e ↦ rw e (record {
    quiet = refl;
    same_tracks = refl;
    same_directories = refl;
    still_counted = IsCounted-weaken n (suc n) t (omega arith) h;
    id = 0;
    is_id = zero_id e;
    known = omega arith;
    none_zero = λ _. refl;
  })
  | inr (name, e) ↦ elim (found_album name t.albums h.positive) [
    | inl none_there ↦
        rw
          (
            e,
            field_rowid_create_new albums_name name t last none_there fresh_album (add_album name),
          )
          (record {
            quiet = refl;
            same_tracks = refl;
            same_directories = refl;
            still_counted = add_album-IsCounted name n t h;
            id = fresh_album t;
            is_id = refl;
            known = omega (arith, top-add_album name t);
            none_zero = λ absent. absurd (ground (arith, e));
          })
    | inr (k, rest, found, from, le) ↦
        rw
          (
            e,
            field_rowid_create_found albums_name name t last k rest found (omega (arith, h.bounded))
                fresh_album (add_album name) from,
          )
          (record {
            quiet = refl;
            same_tracks = refl;
            same_directories = refl;
            still_counted = IsCounted-weaken n (suc n) t (omega arith) h;
            id = k;
            is_id = refl;
            known = le;
            none_zero = λ absent. absurd (ground (arith, e));
          })
  ]
]
