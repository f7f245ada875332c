-- ===== src/Streams/Tests.antt =====
-- The properties of streams at concrete inputs.
use musicd.Base.{
  length, inl, ◌==◌, ◌≡◌, ◌≤◌, refl, ◌⊎◌, true, false, [], ◌∷◌, some, arith, All, is_positive,
}
use musicd.Memory.{Ensures, fault, out_of_bounds}
use musicd.Streams.{Packet, samples, encoded, no_packet, Stream, Setup, stream_next}
use musicd.Streams.Choice.{is_in, distance, IsNearest, find_sample_rate, find_sample_rate-IsNearest}
use musicd.Streams.Muxed.{Writes, stream_next-Writes, stream_next-stale}

abbrev packet : Packet
packet = record {
  stream_index = 0;
  past_end = false;
  payload = 1 ∷ [];
  decoded = samples (7 ∷ 8 ∷ 9 ∷ []);
}

abbrev begun : Stream
begun = record {
  packets = packet ∷ packet ∷ [];
  src_buf = [];
  error_counter = 0;
  blocks = [];
  dst = [];
  is_live = false;
  written = [];
  ready = [];
}

abbrev prompt : Setup
prompt = record {
  has_cuefile = false;
  transcodes = true;
  remuxes = true;
  frame_size = 2;
  encode = λ blocks. encoded (5 ∷ []);
  can_write = λ written. true;
}

-- An encoder that gives its first packet for the second block.
abbrev slow : Setup
slow = record prompt {
  encode = λ blocks. elim (length blocks == 2) [ true ↦ encoded (5 ∷ []) | false ↦ no_packet ];
}

stream_next-Writes_example :
    Ensures (stream_next slow 7 begun) (λ r. is_positive r.0 ≡ true → Writes slow begun r.1)
stream_next-Writes_example =
    stream_next-Writes slow 7 begun refl refl (omega arith) (inl refl) (omega arith)

-- An encoder that gives nothing, after a packet.
abbrev delayed : Setup
delayed = record prompt { encode = λ blocks. no_packet }

abbrev behind : Stream
behind = record begun { src_buf = 1 ∷ 2 ∷ []; dst = 5 ∷ [] }

stream_next-stale_example : stream_next delayed 1 behind ≡ fault out_of_bounds
stream_next-stale_example =
    stream_next-stale delayed 0 behind 5 [] refl refl (omega arith) refl refl

-- MP3 has no rate above 48000.
find_sample_rate-IsNearest_example :
    IsNearest 96000 (44100 ∷ 48000 ∷ []) (find_sample_rate 96000 (some (44100 ∷ 48000 ∷ [])))
    × ((is_in (find_sample_rate 96000 (some (44100 ∷ 48000 ∷ []))) (44100 ∷ 48000 ∷ []) ≡ true)
        ⊎ ((find_sample_rate 96000 (some (44100 ∷ 48000 ∷ [])) ≡ 0)
            × All (λ rate. 96000 ≤ distance rate 96000) (44100 ∷ 48000 ∷ [])))
find_sample_rate-IsNearest_example = find_sample_rate-IsNearest 96000 (44100 ∷ 48000 ∷ [])
