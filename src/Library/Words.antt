-- ===== src/Library/Words.antt =====
-- src/library.c: library_lyrics and what follows it.
use musicd.Base.{
  ℕ, suc, ◌%◌, true, false, not, List, [], ◌∷◌, ◌++◌, Option, none, some, if◌then◌else◌, Bytes, ℤ,
  pos, length, get_elem?,
}
use musicd.Library.Rows.{TrackRow, LyricsRow, at, same, keep, count, new_rowid, wrap_int, Tables}
use musicd.Library.Statements.{Query, pure, ◌>>=◌, succeeds, read, prepare_query, execute_insert}
use musicd.Library.Selects.{select_int}

-- `lyrics_t`
pub record Lyrics : Type 0 where
  pub lyrics : Option Bytes
  pub provider : Option Bytes
  pub source : Option Bytes

-- A text that is NULL leaves no lyrics, but the time is given all the same.
unfoldable pub lyrics_of : List LyricsRow → Option Lyrics × ℤ
lyrics_of [] = (none, pos 0)
lyrics_of (row ∷ rows) = elim row.lyrics [
  | none ↦ (none, row.mtime)
  | some text ↦
      (some record { lyrics = some text; provider = row.provider; source = row.source }, row.mtime)
]

-- The lyrics, and what is written to `*time`.
unfoldable pub library_lyrics : ℤ → Query (Option Lyrics × ℤ)
unfolding prepare_query succeeds lyrics_of
library_lyrics track = do
  prepared ← prepare_query
  elim prepared [
    | false ↦ pure (none, pos 0)
    | true ↦ do
      good ← succeeds
      rows ← read λ t. keep (λ r. same r.trackid track) t.lyrics
      pure (if good then lyrics_of rows else (none, pos 0))
  ]

-- `lyrics ? lyrics->field : NULL`
abbrev pub bound : (Lyrics → Option Bytes) → Option Lyrics → Option Bytes
bound field none = none
bound field (some lyrics) = field lyrics

abbrev pub fresh_lyrics : Tables → ℕ
fresh_lyrics t = new_rowid LyricsRow.rowid t.lyrics

-- `INSERT OR REPLACE INTO lyrics …`: the row that has the UNIQUE `trackid` goes.
abbrev pub add_lyrics : ℤ → Option Lyrics → ℤ → ℕ → Tables → Tables
add_lyrics track lyrics now rowid t = record t {
  lyrics =
      keep (λ r. not (same r.trackid track)) t.lyrics
      ++ (record {
        rowid = rowid;
        trackid = track;
        lyrics = bound Lyrics.lyrics lyrics;
        provider = bound Lyrics.provider lyrics;
        source = bound Lyrics.source lyrics;
        mtime = now;
      }
          ∷ []);
}

unfoldable pub library_lyrics_set : ℤ → Option Lyrics → ℤ → Query Unit
unfolding prepare_query execute_insert
library_lyrics_set track lyrics now = do
  prepared ← prepare_query
  elim prepared [
    | false ↦ pure tt
    | true ↦ do
      executed ← execute_insert (λ t. false) fresh_lyrics (add_lyrics track lyrics now)
      pure tt
  ]

-- The id is bound as an `int`.
unfoldable pub library_track_by_id : ℤ → Query (Option TrackRow)
unfolding prepare_query succeeds wrap_int
library_track_by_id id = do
  prepared ← prepare_query
  elim prepared [
    | false ↦ pure none
    | true ↦ do
      good ← succeeds
      rows ← read λ t. keep (λ r. at r.rowid (wrap_int id)) t.tracks
      pure (
          if good then elim rows as (λ _. Option TrackRow) [ [] ↦ none | r ∷ _ ↦ some r ] else none)
  ]

unfoldable pub library_tracks_total : Query ℤ
unfolding select_int
library_tracks_total = select_int (pos 0) λ t. some (pos (count (λ r. true) t.tracks)) ∷ []

-- `ORDER BY RANDOM() LIMIT 1`: `chance` decides which row comes first.
unfoldable pub any_row : ℕ → List TrackRow → List (Option ℤ)
any_row chance [] = []
any_row chance (row ∷ rows) =
    elim (get_elem? (row ∷ rows) (chance % suc (length rows))) as (λ _. List (Option ℤ)) [
      | none ↦ []
      | some r ↦ some (pos r.rowid) ∷ []
    ]

unfoldable pub library_randomid : ℕ → Query ℤ
unfolding select_int any_row
library_randomid chance = select_int (pos 0) λ t. any_row chance t.tracks
