-- ===== src/Cue/Tracks.antt =====
-- src/cue.c: which tracks a sheet adds, with which durations.
use musicd.Base.{List, [], ◌∷◌, Bytes, ℤ}
use musicd.Cue.Sheet.{Track, Env, add_track}

module _ {Time Store : Type 0} (env : Env Time Store) (cuepath : Bytes) (directory : ℤ) where
  -- Every track lasts until the next one starts, and the last one until the file ends.
  abbrev pub with_durations : Time → List (Track Time) → List (Track Time)
  with_durations total [] = []
  with_durations total (t ∷ []) = record t { duration = env.minus total t.start } ∷ []
  with_durations total (t ∷ u ∷ tracks) =
      record t { duration = env.minus u.start t.start } ∷ with_durations total (u ∷ tracks)

  abbrev pub add_tracks : List (Track Time) → Store → Store
  add_tracks [] store = store
  add_tracks (t ∷ tracks) store = add_tracks tracks (add_track env cuepath directory t store)
