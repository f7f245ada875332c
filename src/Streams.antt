-- ===== src/Streams.antt =====
-- src/stream.c: the choice of formats, and the steps from packets of the source to packets of the
-- encoder. What libav gives is part of the state or an argument; the samples of a frame are those
-- behind the resampler. The samples that are left at the end are not encoded.
pub mod Choice
pub mod Blocks
pub mod Muxed
mod Tests
use musicd.Base.{
  ℕ, zero, suc, ◌+◌, ◌-◌, Bool, true, false, ◌&&◌, ◌||◌, List, [], ◌∷◌, ◌++◌, Option, none, some,
  ◌==◌, ltb, leb, if◌then◌else◌, Bytes, length, take, drop, ℤ, pos, negsuc, is_positive,
}
use musicd.Memory.{Run, done, fault, endless, out_of_bounds, ◌>>=◌}

-- What `avcodec_decode_audio4` makes of a packet: an error, no frame, or a frame.
pub data Decoded : Type 0 where
  broken no_frame : Decoded
  samples : List ℕ → Decoded

-- A packet of `av_read_frame`: `past_end` says that it lies behind the end of the track.
pub record Packet : Type 0 where
  pub stream_index : ℕ
  pub past_end : Bool
  pub payload : Bytes
  pub decoded : Decoded

-- What `avcodec_encode_audio2` gives.
pub data Encoded : Type 0 where
  failed no_packet : Encoded
  encoded : Bytes → Encoded

-- The parts of `stream_t` that change. The list of packets ends with the file or an error. `dst` is
-- what `dst_data` points at, which is the encoder's packet, and `is_live` says that this packet has
-- not been unreferenced since. `blocks` and `written` are what was encoded and muxed so far, latest
-- first.
pub record Stream : Type 0 where
  pub packets : List Packet
  pub src_buf : List ℕ
  pub error_counter : ℕ
  pub blocks : List (List ℕ)
  pub dst : Bytes
  pub is_live : Bool
  pub written : List Bytes
  pub ready : Bytes

-- What stays: whether the track is one of a sheet, whether it is transcoded and muxed, the size of the
-- encoder's frames, its answers by the blocks so far and those of the muxer by the packets so far.
pub record Setup : Type 0 where
  pub has_cuefile : Bool
  pub transcodes : Bool
  pub remuxes : Bool
  pub frame_size : ℕ
  pub encode : List (List ℕ) → Encoded
  pub can_write : List Bytes → Bool

-- What `read_next` gives, with the data of `src_packet` and the packets left.
pub data ReadNext : Type 0 where
  ended : Bytes → List Packet → ReadNext
  next : Packet → List Packet → ReadNext

module _ (setup : Setup) where
  unfoldable pub read_next : List Packet → ReadNext
  read_next [] = ended [] []
  read_next (packet ∷ packets) = elim (packet.stream_index == 0) [
    | false ↦ read_next packets
    | true ↦
        if packet.past_end && setup.has_cuefile
        then ended packet.payload packets
        else next packet packets
  ]

  unfoldable pub decode_next : Stream → ℤ × Stream
  unfolding read_next
  decode_next stream = elim (read_next stream.packets) [
    | ended payload packets ↦ (pos 0, record stream { packets = packets })
    | next packet packets ↦ elim packet.decoded [
      | broken ↦ (
        if ltb 10 (suc stream.error_counter) then negsuc 0 else pos 1,
        record stream { packets = packets; error_counter = suc stream.error_counter },
      )
      | no_frame ↦ (pos 1, record stream { packets = packets; error_counter = 0 })
      | samples frame ↦ (
        pos 1,
        record stream { packets = packets; error_counter = 0; src_buf = stream.src_buf ++ frame },
      )
    ]
  ]

  -- The loop of `encode_next`.
  unfoldable pub fill : ℕ → Stream → Run (ℤ × Stream)
  unfolding decode_next
  fill zero stream = fault endless
  fill (suc fuel) stream = elim (leb setup.frame_size (length stream.src_buf)) [
    | true ↦ done (pos 1, stream)
    | false ↦
        let (result, stream') = decode_next stream in
        elim (is_positive result) [ true ↦ fill fuel stream' | false ↦ done (result, stream') ]
  ]

  -- The old packet is unreferenced before the encoder is asked.
  unfoldable pub encode_block : Stream → ℤ × Stream
  encode_block stream =
      let block = take setup.frame_size stream.src_buf in
      let asked : Stream = record stream {
        src_buf = drop setup.frame_size stream.src_buf;
        blocks = block ∷ stream.blocks;
        is_live = false;
      } in
      elim (setup.encode asked.blocks) [
        | failed ↦ (negsuc 0, asked)
        | no_packet ↦ (pos 1, asked)
        | encoded packet ↦ (pos 1, record asked { dst = packet; is_live = true })
      ]

  -- Each turn of the loop takes a packet of the source.
  unfoldable pub encode_next : Stream → Run (ℤ × Stream)
  unfolding fill encode_block
  encode_next stream = do
    (result, filled) ← fill (suc (length stream.packets)) stream
    elim (is_positive result) [ false ↦ done (result, filled) | true ↦ done (encode_block filled) ]

  -- `while (stream->dst_size == 0)`
  unfoldable pub transcode_next : ℕ → Stream → Run (ℤ × Stream)
  unfolding encode_next
  transcode_next zero stream = fault endless
  transcode_next (suc fuel) stream = do
    (result, stream') ← encode_next stream
    elim (is_positive result) [
      | false ↦ done (result, stream')
      | true ↦ elim stream'.dst as (λ _. Run (ℤ × Stream)) [
        | [] ↦ transcode_next fuel stream'
        | c ∷ dst ↦ done (result, record stream' { ready = c ∷ dst })
      ]
    ]

  unfoldable pub get_next : ℕ → Stream → Run (ℤ × Stream)
  unfolding transcode_next read_next
  get_next fuel stream = elim setup.transcodes [
    | true ↦ transcode_next fuel stream
    | false ↦ elim (read_next stream.packets) [
      | ended payload packets ↦ done (pos 0, record stream { packets = packets; ready = payload })
      | next packet packets ↦
          done (pos 1, record stream { packets = packets; ready = packet.payload })
    ]
  ]

  -- `av_interleaved_write_frame` reads the packet: after it was unreferenced, that is a fault.
  unfoldable pub write_frame : Stream → Run (ℤ × Stream)
  write_frame stream = elim stream.is_live [
    | false ↦ fault out_of_bounds
    | true ↦
        if setup.can_write (stream.dst ∷ stream.written)
        then done (pos 1, record stream { written = stream.dst ∷ stream.written })
        else done (negsuc 0, stream)
  ]

  unfoldable pub mux_next : ℕ → Stream → Run (ℤ × Stream)
  unfolding get_next write_frame
  mux_next zero stream = fault endless
  mux_next (suc fuel) stream = do
    (result, stream') ← get_next (suc fuel) stream
    elim (is_positive result) [
      | false ↦ done (result, stream')
      | true ↦ elim stream'.dst as (λ _. Run (ℤ × Stream)) [
        | [] ↦ mux_next fuel stream'
        | c ∷ dst ↦ write_frame stream'
      ]
    ]

  unfoldable pub stream_next : ℕ → Stream → Run (ℤ × Stream)
  unfolding mux_next get_next
  stream_next fuel stream = if setup.remuxes then mux_next fuel stream else get_next fuel stream
