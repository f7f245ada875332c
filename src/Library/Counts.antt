-- ===== src/Library/Counts.antt =====
-- src/library.c: the number of tracks that the table of albums keeps.
use musicd.Base.{
  ℕ, ◌+◌, ◌≤◌, ◌<◌, ◌≡◌, refl, Bool, not, List, [], ◌∷◌, ◌++◌, map, arith, All, All-append,
  Bool-cases, ℤ-cases, inl, inr, ℤ, pos, negsuc,
}
use musicd.Library.Rows.{Track, DirectoryRow, TrackRow, AlbumRow, Tables, keep, count, largest}
use musicd.Library.Files.{of_file, of_album, remains, has_album, recount, count_up, add_track}

-- What an album counts is the number of its tracks.
abbrev pub IsCount : List TrackRow → AlbumRow → Type 0
IsCount ts a = a.tracks ≡ count (of_album a.rowid) ts

abbrev pub Known : ℕ → ℤ → Type 0
Known n (pos k) = k ≤ n
Known n (negsuc k) = ⊥

abbrev pub top : List AlbumRow → ℕ
top albums = largest AlbumRow.rowid albums

-- Each album counts its tracks, each track has an album's rowid or 0, and rowids are from 1 to `n`.
pub record IsCounted (n : ℕ) (t : Tables) : Type 0 where
  pub counted : All (IsCount t.tracks) t.albums
  pub known : All (λ (r : TrackRow). Known (top t.albums) r.track.albumid) t.tracks
  pub positive : All (λ (a : AlbumRow). 1 ≤ a.rowid) t.albums
  pub bounded : top t.albums ≤ n

-- A directory stands above its own, and has a smaller number: `low` is that of a parent.
abbrev pub low : ℤ → ℕ
low (pos k) = k
low (negsuc k) = 0

abbrev pub Below : ℕ → DirectoryRow → Type 0
Below n r = (low r.parentid < r.rowid) × (r.rowid ≤ n)

abbrev pub IsRooted : ℕ → Tables → Type 0
IsRooted n t = All (Below n) t.directories

pub count-append :
    {A : Type 0} (p : A → Bool) (xs ys : List A) → count p (xs ++ ys) ≡ count p xs + count p ys
count-append p [] ys = omega arith
count-append p (x ∷ xs) ys = ground (arith, count-append p xs ys)

pub largest_last :
    {A : Type 0} (f : A → ℕ) (xs : List A) (x : A)
    → largest f xs < f x
    → largest f (xs ++ (x ∷ [])) ≡ f x
largest_last f [] x h = ground arith
largest_last f (y ∷ xs) x h = ground (arith, largest_last f xs x)

-- No track has an album that is not there.
pub count_unknown :
    (m k : ℕ) (ts : List TrackRow)
    → All (λ (r : TrackRow). Known m r.track.albumid) ts
    → m < k
    → count (of_album k) ts ≡ 0
count_unknown m k [] h less = refl
count_unknown m k (r ∷ ts) h less = elim (ℤ-cases r.track.albumid) [
  | inl (i, e) ↦ let known : i ≤ m = rw e at h.0 in ground (arith, e, count_unknown m k ts h.1 less)
  | inr (i, e) ↦ absurd (rw e at h.0)
]

pub All-weaken :
    {A : Type 0} (P Q : A → Type 0) (xs : List A) → ((x : A) → P x → Q x) → All P xs → All Q xs
All-weaken P Q [] f h = h
All-weaken P Q (x ∷ xs) f h = (f x h.0, All-weaken P Q xs f h.1)

counts_added :
    (i : ℕ) (track : Track) (ts : List TrackRow) (albums : List AlbumRow)
    → All (IsCount ts) albums
    → All
        (IsCount (ts ++ (record { rowid = i; track = track } ∷ [])))
        (map (count_up track.albumid) albums)
counts_added i track ts [] h = tt
counts_added i track ts (a ∷ albums) h = (
  ground
      (arith, h.0, count-append (of_album a.rowid) ts (record { rowid = i; track = track } ∷ [])),
  counts_added i track ts albums h.1,
)

-- A new track, and the count of its album.
top-count_up : (k : ℤ) (albums : List AlbumRow) → top (map (count_up k) albums) ≡ top albums
top-count_up k [] = refl
top-count_up k (a ∷ albums) = ground (arith, top-count_up k albums)

positive-count_up :
    (k : ℤ) (albums : List AlbumRow)
    → All (λ (a : AlbumRow). 1 ≤ a.rowid) albums
    → All (λ (a : AlbumRow). 1 ≤ a.rowid) (map (count_up k) albums)
positive-count_up k [] h = tt
positive-count_up k (a ∷ albums) h = (ground (arith, h.0), positive-count_up k albums h.1)

-- Where a track is of no album, there is none to count it.
counts_zero :
    (i : ℕ) (track : Track) (ts : List TrackRow) (albums : List AlbumRow)
    → track.albumid ≡ pos 0
    → All (λ (a : AlbumRow). 1 ≤ a.rowid) albums
    → All (IsCount ts) albums
    → All (IsCount (ts ++ (record { rowid = i; track = track } ∷ []))) albums
counts_zero i track ts [] e h c = tt
counts_zero i track ts (a ∷ albums) e h c = (
  ground (
    arith,
    e,
    h.0,
    c.0,
    count-append (of_album a.rowid) ts (record { rowid = i; track = track } ∷ []),
  ),
  counts_zero i track ts albums e h.1 c.1,
)

-- The tracks of a file go.
count-keep :
    (k : ℕ) (file : ℤ) (ts : List TrackRow)
    → count (of_album k) (keep (λ r. not (of_file file r)) ts) ≡ count (remains k file) ts
count-keep k file [] = refl
count-keep k file (r ∷ ts) = elim (Bool-cases (of_file file r)) [
  | inl e ↦ rw e (rw (count-keep k file ts) (ground arith))
  | inr e ↦ rw e (ground (arith, count-keep k file ts))
]

count_others :
    (k : ℕ) (file : ℤ) (ts : List TrackRow)
    → count (has_album k file) ts ≡ 0
    → count (remains k file) ts ≡ count (of_album k) ts
count_others k file [] h = refl
count_others k file (r ∷ ts) h = elim (Bool-cases (of_file file r)) [
  | inl e ↦ elim (Bool-cases (of_album k r)) [
    | inl o ↦ absurd (ground (arith, h, e, o))
    | inr o ↦ rw (e, o) (count_others k file ts (rw (e, o) at h))
  ]
  | inr e ↦ rw e (ground (arith, count_others k file ts (rw e at h)))
]

counts_recounted :
    (file : ℤ) (ts : List TrackRow) (albums : List AlbumRow)
    → All (IsCount ts) albums
    → All (IsCount (keep (λ r. not (of_file file r)) ts)) (map (recount ts file) albums)
counts_recounted file ts [] h = tt
counts_recounted file ts (a ∷ albums) h = (
  ground (arith, h.0, count-keep a.rowid file ts, count_others a.rowid file ts),
  counts_recounted file ts albums h.1,
)

-- A track that has no album, and one that has one.
pub add_track-IsCounted :
    (n i : ℕ) (track : Track) (t : Tables)
    → IsCounted n t
    → track.albumid ≡ pos 0
    → IsCounted n (add_track track i t)
add_track-IsCounted n i track t h e = record {
  counted = counts_zero i track t.tracks t.albums e h.positive h.counted;
  known =
      All-append (λ (r : TrackRow). Known (top t.albums) r.track.albumid) t.tracks
        (record { rowid = i; track = track } ∷ []) h.known (rw e (omega arith), tt);
  positive = h.positive;
  bounded = h.bounded;
}

pub increment-IsCounted :
    (n i k : ℕ) (track : Track) (t : Tables)
    → IsCounted n t
    → track.albumid ≡ pos k
    → k ≤ top t.albums
    → IsCounted n (record (add_track track i t) { albums = map (count_up track.albumid) t.albums })
increment-IsCounted n i k track t h e le = record {
  counted = counts_added i track t.tracks t.albums h.counted;
  known = rw (top-count_up track.albumid t.albums) (
      All-append (λ (r : TrackRow). Known (top t.albums) r.track.albumid) t.tracks
        (record { rowid = i; track = track } ∷ []) h.known (rw e le, tt));
  positive = positive-count_up track.albumid t.albums h.positive;
  bounded = rw (top-count_up track.albumid t.albums) h.bounded;
}

-- Tracks and albums without those of a file.
top-recount :
    (file : ℤ) (ts : List TrackRow) (albums : List AlbumRow)
    → top (map (recount ts file) albums) ≡ top albums
top-recount file ts [] = refl
top-recount file ts (a ∷ albums) = ground (arith, top-recount file ts albums)

positive-recount :
    (file : ℤ) (ts : List TrackRow) (albums : List AlbumRow)
    → All (λ (a : AlbumRow). 1 ≤ a.rowid) albums
    → All (λ (a : AlbumRow). 1 ≤ a.rowid) (map (recount ts file) albums)
positive-recount file ts [] h = tt
positive-recount file ts (a ∷ albums) h = (ground (arith, h.0), positive-recount file ts albums h.1)

pub All-keep :
    {A : Type 0} (P : A → Type 0) (p : A → Bool) (xs : List A) → All P xs → All P (keep p xs)
All-keep P p [] h = tt
All-keep P p (x ∷ xs) h = elim (Bool-cases (p x)) [
  | inl e ↦ rw e (h.0, All-keep P p xs h.1)
  | inr e ↦ rw e (All-keep P p xs h.1)
]

pub cleared-IsCounted :
    (n : ℕ) (file : ℤ) (t : Tables)
    → IsCounted n t
    → IsCounted n (record t {
      albums = map (recount t.tracks file) t.albums;
      tracks = keep (λ r. not (of_file file r)) t.tracks;
    })
cleared-IsCounted n file t h = record {
  counted = counts_recounted file t.tracks t.albums h.counted;
  known = rw (top-recount file t.tracks t.albums) (
      All-keep (λ (r : TrackRow). Known (top t.albums) r.track.albumid) (λ r. not (of_file file r))
        t.tracks h.known);
  positive = positive-recount file t.tracks t.albums h.positive;
  bounded = rw (top-recount file t.tracks t.albums) h.bounded;
}
