-- ===== src/Http/MediaTests.antt =====
-- The properties of the handlers for lyrics, images and streams at concrete inputs.
use musicd.Base.{◌≡◌, refl, false, [], ◌∷◌, none, some, arith, codes, pos}
use musicd.Client.{Connection, normal}
use musicd.Http.{Request, args_int, args_ptr, find_arg}
use musicd.Http.Reply.{Env}
use musicd.Http.Media.{Callback, Store, reply, send_lyrics, method_track_lyrics}
use musicd.Http.Answered.{fetched, found, method_track_lyrics-answered}
use musicd.Strings.Search.{strbeginswith}
use musicd.Library.Rows.{Tables, TrackRow}
use musicd.Library.Words.{library_lyrics}
use musicd.Lyrics.{Web}

abbrev row : TrackRow
row = record {
  rowid = 3;
  track = record {
    fileid = pos 1;
    file = codes "/m/a.ogg";
    cuefileid = pos 0;
    cuefile = none;
    track = pos 1;
    title = some (codes "Song");
    artistid = pos 1;
    artist = some (codes "Band");
    albumid = pos 0;
    album = none;
    start = 0;
    duration = 0;
    trackindex = pos 0;
  };
}

abbrev one_track : Tables
one_track = record {
  directories = [];
  files = [];
  artists = [];
  albums = [];
  tracks = row ∷ [];
  images = [];
  lyrics = [];
}

-- A network without answers.
abbrev offline : Web
offline = record {
  url_fetch = λ url. none;
  curl_escape = λ s. s;
  string_iconv = λ s. s;
  scan_entity = λ s. none;
}

abbrev env : Env
env = record {
  decimal = λ n. codes "0";
  printed = λ s. s;
  enable_cors = false;
  http_root = none;
  files = λ path. none;
}

abbrev store : Store
store = record {
  cache_get = λ name. none;
  cache_exists = λ name. false;
  image_cache_name = λ image size. codes "3_64.jpg";
  image_mime_type = λ path. codes "image/jpeg";
  image_task = λ image size. 7;
  lyrics_task = λ track. 8;
}

abbrev request : Request
request = record { args = some (codes "id=3"); cookies = [] }

abbrev connected : Connection Callback
connected = record { outbuf = []; state = normal }

method_track_lyrics-answered_example :
    method_track_lyrics env
      (λ i. codes "0")
      (λ s. pos 3)
      store
      []
      request
      (fetched offline 9 3 one_track (pos 0) row [])
      connected
    ≡ (elim (found offline 9 3 one_track (pos 0) row []) [
      | some lyrics ↦
          send_lyrics env
            (λ i. codes "0")
            (λ s. pos 3)
            store
            []
            lyrics
            (library_lyrics (pos 3) (fetched offline 9 3 one_track (pos 0) row [])).1
            connected
      | none ↦
          reply env
            (λ i. codes "0")
            (λ s. pos 3)
            store
            []
            (codes "404 Not Found")
            (library_lyrics (pos 3) (fetched offline 9 3 one_track (pos 0) row [])).1
            connected
    ])
unfolding args_int args_ptr find_arg strbeginswith
method_track_lyrics-answered_example =
    method_track_lyrics-answered offline 9 3 one_track (pos 0) row [] env (λ i. codes "0")
      (λ s. pos 3) store [] request connected (omega arith) (omega arith) (omega arith) refl refl
