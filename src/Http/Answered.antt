-- ===== src/Http/Answered.antt =====
-- src/protocol_http.c, src/lyrics.c and src/library.c together: a request for a track's lyrics after the
-- task that fetches them.
use musicd.Base.{
  ℕ, ◌<◌, ◌^◌, ◌≡◌, refl, ap, ◌∙◌, List, ◌∷◌, Option, none, some, arith, Bytes, codes, ℤ, pos,
  Option-cases, inl, inr,
}
use musicd.Client.{Connection}
use musicd.Http.{Request, args_int}
use musicd.Http.Reply.{Env}
use musicd.Http.Media.{Callback, Store, reply, send_lyrics, method_track_lyrics}
use musicd.Library.Rows.{Tables, TrackRow, LyricsRow, at, keep, wrap_int}
use musicd.Library.Statements.{Db, prepare_query, succeeds, execute_insert}
use musicd.Library.Words.{
  Lyrics, lyrics_of, library_lyrics, library_lyrics_set, fresh_lyrics, library_track_by_id,
}
use musicd.Library.Lookup.{working, wrap_int_small}
use musicd.Library.Kept.{library_lyrics-set, rows_set, same_self}
use musicd.Lyrics.{Web, lyrics_fetch, lyrics_task}
use musicd.Lyrics.Fetched.{lyrics_fetch-IsFetched}

-- What the task leaves is read back: lyrics, or none with the time of the attempt.
unset_read :
    (track now : ℤ) (t : Tables) (last : ℤ)
    → (library_lyrics track (library_lyrics_set track none now (working t last)).1).0 ≡ (none, now)
unfolding library_lyrics library_lyrics_set prepare_query succeeds execute_insert lyrics_of
unset_read track now t last =
    let row : LyricsRow = record {
      rowid = fresh_lyrics t;
      trackid = track;
      lyrics = none;
      provider = none;
      source = none;
      mtime = now;
    } in
    rw (rows_set track track t.lyrics row refl) (rw (same_self track) refl)

task_read :
    (web : Web) (track now : ℤ) (fetched : Option Lyrics) (t : Tables) (last : ℤ)
    → ((l : Lyrics) → fetched ≡ some l → (text : Bytes) × (l.lyrics ≡ some text))
    → (library_lyrics track (library_lyrics_set track fetched now (working t last)).1).0
      ≡ (fetched, now)
task_read web track now none t last has = unset_read track now t last
task_read web track now (some l) t last has =
    let (text, e) = has l refl in
    library_lyrics-set track track l text now t last e ∙ (rw (same_self track) refl)

module _ (web : Web) (now id : ℕ) (t : Tables) (last : ℤ) (row : TrackRow)
    (rest : List TrackRow) where
  -- The database after the task.
  abbrev pub fetched : Db
  fetched = (lyrics_task web (pos now) (pos id) (working t last)).1

  abbrev pub found : Option Lyrics
  found = lyrics_fetch web row.track.artist row.track.title

  track_found :
      id < 2 ^ 31
      → keep (λ r. at r.rowid (pos id)) t.tracks ≡ row ∷ rest
      → library_track_by_id (pos id) (working t last) ≡ (some row, working t last)
  unfolding library_track_by_id prepare_query succeeds
  track_found small e =
      let there : keep (λ r. at r.rowid (wrap_int (pos id))) t.tracks ≡ row ∷ rest =
        rw (wrap_int_small id small) e in
      ground (arith, there)

  task_runs :
      id < 2 ^ 31
      → keep (λ r. at r.rowid (pos id)) t.tracks ≡ row ∷ rest
      → lyrics_task web (pos now) (pos id) (working t last)
        ≡ library_lyrics_set (pos id) found (pos now) (working t last)
  unfolding lyrics_task
  task_runs small e = ground (arith, track_found small e)

  fetched-read :
      id < 2 ^ 31
      → keep (λ r. at r.rowid (pos id)) t.tracks ≡ row ∷ rest
      → (library_lyrics (pos id) fetched).0 ≡ (found, pos now)
  fetched-read small e =
      ap (λ (r : Unit × Db). (library_lyrics (pos id) r.1).0) (task_runs small e)
      ∙ task_read web (pos id) (pos now) found t last (λ l h.
        let (is, _) = lyrics_fetch-IsFetched web row.track.artist row.track.title l h in
        (is.text, is.lyrics))

  -- After the task has run for a track of the library whose number is positive and below 2^31, at a
  -- time other than 0 and while SQLite does not fail, a request for its lyrics is answered at once: with
  -- the lyrics that were fetched, or with 404; no second task is started.
  pub method_track_lyrics-answered :
      (env : Env) (decimal : ℤ → Bytes) (scan_int : Bytes → ℤ) (store : Store) (buf : Bytes)
      (http : Request) (c : Connection Callback)
      → id < 2 ^ 31
      → 0 < id
      → 0 < now
      → keep (λ r. at r.rowid (pos id)) t.tracks ≡ row ∷ rest
      → args_int scan_int http (codes "id") ≡ pos id
      → method_track_lyrics env decimal scan_int store buf http fetched c ≡ (elim found [
        | some lyrics ↦
            send_lyrics env decimal scan_int store buf lyrics (library_lyrics (pos id) fetched).1 c
        | none ↦
            reply env decimal scan_int store buf
              (codes "404 Not Found")
              (library_lyrics (pos id) fetched).1
              c
      ])
  unfolding method_track_lyrics
  method_track_lyrics-answered env decimal scan_int store buf http c small from late e asked =
      let read : (library_lyrics (pos id) fetched).0 ≡ (found, pos now) = fetched-read small e in
      let text : (library_lyrics (pos id) fetched).0.0 ≡ found =
        ap (λ (r : Option Lyrics × ℤ). r.0) read in
      let time : (library_lyrics (pos id) fetched).0.1 ≡ pos now =
        ap (λ (r : Option Lyrics × ℤ). r.1) read in
      rw (asked, method_track_lyrics)
        (elim (Option-cases found) [
          | inl o ↦ ground (arith, text, time, o, from, late)
          | inr (l, o) ↦ ground (arith, text, time, o, from)
        ])
