-- ===== src/Library/Kept.antt =====
-- src/library.c: lyrics through library_lyrics_set and library_lyrics.
use mathlib.Core.Path.{subst}
use musicd.Base.{
  ◌≡◌, refl, ap, true, false, not, List, [], ◌∷◌, ◌++◌, some, arith, Bool-cases, inl, inr, Bytes, ℤ,
  pos, negsuc, if◌then◌else◌,
}
use musicd.Library.Rows.{Tables, LyricsRow, same, keep}
use musicd.Library.Statements.{prepare_query, succeeds, execute_insert}
use musicd.Library.Words.{Lyrics, lyrics_of, library_lyrics, library_lyrics_set, fresh_lyrics}
use musicd.Library.Lookup.{working, same→eq}

pub same_self : (z : ℤ) → same z z ≡ true
same_self (pos n) = ground arith
same_self (negsuc n) = ground arith

same_trans : (x y z : ℤ) → same x y ≡ true → same x z ≡ same y z
same_trans x y z h = ap (λ w. same w z) (same→eq x y h)

-- The rows of a track after the row of one is set.
pub rows_set :
    (track other : ℤ) (rows : List LyricsRow) (row : LyricsRow)
    → row.trackid ≡ track
    → keep (λ r. same r.trackid other) (keep (λ r. not (same r.trackid track)) rows ++ (row ∷ []))
      ≡ (if same track other then row ∷ [] else keep (λ r. same r.trackid other) rows)
rows_set track other [] row e = rw e (ground arith)
rows_set track other (r ∷ rows) row e = elim (Bool-cases (same r.trackid track)) [
  | inl h ↦ ground (arith, h, same_trans r.trackid track other h, rows_set track other rows row e)
  | inr h ↦ elim (Bool-cases (same track other)) [
    | inl o ↦
        let apart : same r.trackid other ≡ false =
          subst (λ w. same r.trackid w ≡ false) (same→eq track other o) h in
        ground (arith, h, o, apart, rows_set track other rows row e)
    | inr o ↦ ground (arith, h, o, rows_set track other rows row e)
  ]
]

-- While SQLite does not fail, lyrics with a text that are set for a track are read back for it with the
-- time of the call, and what is read for any other track stays the same.
pub library_lyrics-set :
    (track other : ℤ) (lyrics : Lyrics) (text : Bytes) (now : ℤ) (t : Tables) (last : ℤ)
    → lyrics.lyrics ≡ some text
    → (library_lyrics other (library_lyrics_set track (some lyrics) now (working t last)).1).0
      ≡ (if same track other then (some lyrics, now) else (library_lyrics other (working t last)).0)
unfolding library_lyrics library_lyrics_set prepare_query succeeds execute_insert lyrics_of
library_lyrics-set track other lyrics text now t last e =
    let row : LyricsRow = record {
      rowid = fresh_lyrics t;
      trackid = track;
      lyrics = lyrics.lyrics;
      provider = lyrics.provider;
      source = lyrics.source;
      mtime = now;
    } in
    rw (rows_set track other t.lyrics row refl)
      (elim (Bool-cases (same track other)) [ inl o ↦ rw (o, e) refl | inr o ↦ rw o refl ])
