-- ===== src/Http/Open.antt =====
-- src/protocol_http.c and src/format.c: the codecs, and the handler that begins a stream. What
-- src/stream.c does, which is libav's work, is a `Streams`.
use musicd.Base.{
  ◌*◌, ◌+◌, ◌||◌, [], ◌∷◌, Option, none, some, ◌==◌, ltb, if◌then◌else◌, Bytes, codes, equal, ℤ,
  pos, negsuc, is_positive,
}
use musicd.Memory.{Run, done, ◌>>=◌}
use musicd.Client.{Connection, client_write, client_start_feed, client_drain}
use musicd.Http.{Request, args_int}
use musicd.Http.Reply.{Env, http_send_headers, http_reply}
use musicd.Library.Rows.{TrackRow}
use musicd.Library.Statements.{Db}
use musicd.Library.Words.{library_track_by_id}

-- `codec_type_t`
pub data CodecType : Type 0 where
  other none_type mp3 ogg_vorbis flac aac opus : CodecType

unfoldable pub codec_type_from_string : Option Bytes → CodecType
codec_type_from_string none = none_type
codec_type_from_string (some []) = none_type
codec_type_from_string (some (c ∷ text)) =
    if equal (c ∷ text) (codes "mp3")
    then mp3
    else if equal (c ∷ text) (codes "ogg") || equal (c ∷ text) (codes "vorbis")
    then ogg_vorbis
    else if equal (c ∷ text) (codes "flac")
    then flac
    else if equal (c ∷ text) (codes "aac")
    then aac
    else if equal (c ∷ text) (codes "opus")
    then opus
    else other

-- Codecs without an entry of the table have that of the first.
unfoldable pub get_mime_by_codec : CodecType → Bytes
get_mime_by_codec mp3 = codes "audio/mpeg"
get_mime_by_codec ogg_vorbis = codes "audio/ogg"
get_mime_by_codec flac = codes "audio/flac"
get_mime_by_codec aac = codes "audio/aac"
get_mime_by_codec opus = codes "audio/opus"
get_mime_by_codec other = codes "audio/mpeg"
get_mime_by_codec none_type = codes "audio/mpeg"

-- Each gives the stream where it succeeds; `stream_next` gives its result too.
pub record Streams (Stream : Type 0) : Type 0 where
  pub stream_open : TrackRow → Option Stream
  pub stream_transcode : CodecType → ℤ → Stream → Option Stream
  pub stream_remux : Stream → Option Stream
  pub stream_seek : ℤ → Stream → Option Stream
  -- what the header of the container makes it write
  pub stream_start : Stream → Bytes × Stream
  pub stream_next : Stream → ℤ × Bytes × Stream

-- The bit rate asked for, held between the bounds; without one, that of the setting in kilobits, which
-- times 1000 is an `int`.
unfoldable pub stream_bitrate : ℤ → ℤ → ℤ
stream_bitrate (pos n) configured =
    if n == 0
    then elim configured as (λ _. ℤ) [
      | pos k ↦ if k == 0 then pos 192000 else pos (k * 1000)
      | negsuc k ↦ negsuc (k * 1000 + 999)
    ]
    else if ltb n 64000
    then pos 64000
    else if ltb 320000 n
    then pos 320000
    else pos n
stream_bitrate (negsuc n) configured = pos 64000

module _ {Stream : Type 0} (streams : Streams Stream) where
  -- The stream with a codec, a bit rate and a place, where all can be had.
  unfoldable pub prepare_stream : CodecType → ℤ → ℤ → TrackRow → Option Stream
  prepare_stream codec bitrate seek track = elim (streams.stream_open track) [
    | none ↦ none
    | some opened ↦ elim (streams.stream_transcode codec bitrate opened) [
      | none ↦ none
      | some transcoding ↦ elim (streams.stream_remux transcoding) [
        | none ↦ none
        | some remuxing ↦
            if is_positive seek then streams.stream_seek seek remuxing else some remuxing
      ]
    ]
  ]

module _ {Stream Wait : Type 0} (env : Env) (streams : Streams Stream) (buf : Bytes) where
  -- `codec` and `bitrate` are the settings, the codec's none where it is not set. The stream is that
  -- of the request, as it was where none is begun.
  unfoldable pub method_open :
      (Bytes → ℤ)
      → Option Bytes
      → ℤ
      → Request
      → Db
      → Option Stream
      → Connection Wait
      → Run (ℤ × Db × Option Stream × Connection Wait)
  unfolding codec_type_from_string get_mime_by_codec stream_bitrate library_track_by_id
      prepare_stream
  method_open scan_int configured_codec configured_bitrate http db old c =
      let codec = codec_type_from_string (elim configured_codec as (λ _. Option Bytes) [
        | none ↦ some (codes "mp3")
        | some t ↦ some t
      ]) in
      let bitrate = stream_bitrate (args_int scan_int http (codes "bitrate")) configured_bitrate in
      let (track, db') = library_track_by_id (args_int scan_int http (codes "id")) db in
      elim track [
        | none ↦ do
          c' ← http_reply env (some buf) (codes "404 Not Found") c
          done (pos 0, db', old, c')
        | some row ↦
            elim (prepare_stream streams codec bitrate (args_int scan_int http (codes "seek"))
              row) [
                | none ↦ do
                  c' ← http_reply env (some buf) (codes "500 Internal Server Error") c
                  done (pos 0, db', old, c')
                | some stream ↦ do
                  c' ←
                      http_send_headers env (some buf) (some (codes "200 OK"))
                        (some (get_mime_by_codec codec)) none c
                  let (header, started) = streams.stream_start stream
                  done (pos 0, db', some started, client_start_feed (client_write header c'))
              ]
      ]

module _ {Stream Wait : Type 0} (streams : Streams Stream) where
  -- Nothing more is fed after the end of the stream or an error.
  unfoldable pub http_feed : Stream → Connection Wait → ℤ × Stream × Connection Wait
  http_feed stream c =
      let (result, packet, stream') = streams.stream_next stream in
      let c' = client_write packet c in
      (pos 0, stream', if is_positive result then c' else client_drain c')
