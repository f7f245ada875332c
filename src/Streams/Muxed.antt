-- ===== src/Streams/Muxed.antt =====
-- src/stream.c: one call of stream_next that transcodes and muxes.
use mathlib.Core.Path.{subst}
use musicd.Base.{
  ℕ, zero, suc, ◌+◌, ◌<◌, All, All-append, length-append, List-cases, ◌≤◌, ◌≡◌, refl, sym, ap, ◌∙◌,
  ◌⊎◌, true, List, [], ◌∷◌, ◌++◌, append_assoc, le→leb, Bytes, length, take, drop, take-append-drop,
  is_positive, arith, Bool-cases, inl, inr,
}
use musicd.Memory.{fault, out_of_bounds, Ensures, Ensures-bind, Ensures-weaken}
use musicd.Streams.{
  Encoded, failed, no_packet, encoded, Stream, Setup, fill, encode_block, encode_next,
  transcode_next, get_next, write_frame, mux_next, stream_next,
}
use musicd.Streams.Blocks.{in_order, all_samples, whole, Fills, fill-Fills}

length-take : {A : Type 0} (n : ℕ) (xs : List A) → n ≤ length xs → length (take n xs) ≡ n
length-take zero xs h = refl
length-take (suc n) [] h = absurd (omega arith)
length-take (suc n) (x ∷ xs) h = ap suc (length-take n xs (omega arith))

-- The samples that are not yet encoded.
abbrev pub remaining : Stream → ℕ
remaining s = length s.src_buf + length (all_samples s.packets)

length-whole : (s : Stream) → length (whole s) ≡ length (in_order s.blocks) + remaining s
length-whole s = omega (
  arith,
  length-append (in_order s.blocks) (s.src_buf ++ all_samples s.packets),
  length-append s.src_buf (all_samples s.packets),
)

module _ (setup : Setup) where
  -- For none of these blocks, latest first, behind those before them, the encoder gave a packet.
  abbrev pub IsSilent : List (List ℕ) → List (List ℕ) → Type 0
  IsSilent [] before = Unit
  IsSilent (block ∷ blocks) before =
      ((setup.encode (block ∷ (blocks ++ before)) ≡ no_packet)
        ⊎ (setup.encode (block ∷ (blocks ++ before)) ≡ encoded []))
      × IsSilent blocks before

  abbrev pub IsBlock : List ℕ → Type 0
  IsBlock block = length block ≡ setup.frame_size

  -- What a call that succeeds has encoded: some blocks that gave nothing, and the one that gave the
  -- packet, which is not empty. No sample is lost.
  pub record Encodes (s : Stream) (r : Stream) : Type 0 where
    pub block : List ℕ
    pub earlier : List (List ℕ)
    pub first : ℕ
    pub packet : Bytes
    pub blocks : r.blocks ≡ block ∷ (earlier ++ s.blocks)
    pub is_block : IsBlock block
    pub are_blocks : All IsBlock earlier
    pub silent : IsSilent earlier s.blocks
    pub is_packet : setup.encode (block ∷ (earlier ++ s.blocks)) ≡ encoded (first ∷ packet)
    pub dst : r.dst ≡ first ∷ packet
    pub is_live : r.is_live ≡ true
    pub same_written : r.written ≡ s.written
    pub kept : whole r ≡ whole s

  -- The same with the packet written.
  pub record Writes (s : Stream) (r : Stream) : Type 0 where
    pub block : List ℕ
    pub earlier : List (List ℕ)
    pub first : ℕ
    pub packet : Bytes
    pub blocks : r.blocks ≡ block ∷ (earlier ++ s.blocks)
    pub is_block : IsBlock block
    pub are_blocks : All IsBlock earlier
    pub silent : IsSilent earlier s.blocks
    pub is_packet : setup.encode (block ∷ (earlier ++ s.blocks)) ≡ encoded (first ∷ packet)
    pub written : r.written ≡ (first ∷ packet) ∷ s.written
    pub kept : whole r ≡ whole s

  -- No packet is left from an earlier call, or the encoder has one for the next block.
  abbrev pub IsFresh : Stream → Type 0
  IsFresh s = (s.dst ≡ []) ⊎ ((block : List ℕ) → ¬ (setup.encode (block ∷ s.blocks) ≡ no_packet))

  taken :
      (s : Stream)
      → in_order (take setup.frame_size s.src_buf ∷ s.blocks)
          ++ (drop setup.frame_size s.src_buf ++ all_samples s.packets)
        ≡ whole s
  taken s =
      append_assoc (in_order s.blocks) (take setup.frame_size s.src_buf)
        (drop setup.frame_size s.src_buf ++ all_samples s.packets)
      ∙ ap (λ w. in_order s.blocks ++ w)
          (sym (
            append_assoc (take setup.frame_size s.src_buf) (drop setup.frame_size s.src_buf)
              (all_samples s.packets)))
      ∙ ap (λ w. in_order s.blocks ++ (w ++ all_samples s.packets))
          (take-append-drop setup.frame_size s.src_buf)

  -- What one call of `encode_next` leaves where it succeeds: one block was encoded.
  record Asks (s : Stream) (r : Stream) : Type 0 where
    block : List ℕ
    blocks : r.blocks ≡ block ∷ s.blocks
    is_block : IsBlock block
    same_written : r.written ≡ s.written
    kept : whole r ≡ whole s
    answer :
        ((setup.encode (block ∷ s.blocks) ≡ no_packet) × (r.dst ≡ s.dst))
        ⊎ ((setup.encode (block ∷ s.blocks) ≡ encoded r.dst) × (r.is_live ≡ true))

  Encoded-cases :
      (e : Encoded) → ((e ≡ failed) ⊎ (e ≡ no_packet)) ⊎ ((packet : Bytes) × (e ≡ encoded packet))
  Encoded-cases failed = inl (inl refl)
  Encoded-cases no_packet = inl (inr refl)
  Encoded-cases (encoded packet) = inr (packet, refl)

  encode_block-Asks :
      (s filled : Stream)
      → filled.blocks ≡ s.blocks
      → filled.written ≡ s.written
      → filled.dst ≡ s.dst
      → whole filled ≡ whole s
      → setup.frame_size ≤ length filled.src_buf
      → is_positive (encode_block setup filled).0 ≡ true
      → Asks s (encode_block setup filled).1
  unfolding encode_block
  encode_block-Asks s filled b w d k enough positive =
      let block : List ℕ = take setup.frame_size filled.src_buf in
      let same = ap (λ bs. setup.encode (block ∷ bs)) (sym b) in
      elim (Encoded-cases (setup.encode (block ∷ filled.blocks))) [
        | inl (inl e) ↦ absurd (ground (arith, e, positive))
        | inl (inr e) ↦
            rw (e, encode_block)
              (record {
                block = block;
                blocks = ap (◌∷◌ block) b;
                is_block = length-take setup.frame_size filled.src_buf enough;
                same_written = w;
                kept = taken filled ∙ k;
                answer = inl (same ∙ e, d);
              })
        | inr (packet, e) ↦
            rw (e, encode_block)
              (record {
                block = block;
                blocks = ap (◌∷◌ block) b;
                is_block = length-take setup.frame_size filled.src_buf enough;
                same_written = w;
                kept = taken filled ∙ k;
                answer = inr (same ∙ e, refl);
              })
      ]

  encode_next-Asks :
      (s : Stream) → Ensures (encode_next setup s) (λ r. is_positive r.0 ≡ true → Asks s r.1)
  unfolding encode_next
  encode_next-Asks s =
      Ensures-bind (fill setup (suc (length s.packets)) s) _ (Fills setup s)
        (λ r. is_positive r.0 ≡ true → Asks s r.1)
        (fill-Fills setup (suc (length s.packets)) s (omega arith))
        (λ r f. elim (Bool-cases (is_positive r.0)) [
          | inr o ↦ rw o (λ p. absurd (ground (arith, p, o)))
          | inl o ↦ rw o (
              encode_block-Asks s r.1 f.same_blocks f.same_written f.same_dst (f.kept o)
                (f.enough o))
        ])

  Asks-remaining : (s r : Stream) → Asks s r → remaining r + setup.frame_size ≡ remaining s
  Asks-remaining s r a = omega (
    arith,
    length-whole s,
    length-whole r,
    ap (λ (w : List ℕ). length w) a.kept,
    ap (λ (bs : List (List ℕ)). length (in_order bs)) a.blocks,
    length-append (in_order s.blocks) a.block,
    a.is_block,
  )

  IsSilent-append :
      (blocks : List (List ℕ)) (block : List ℕ) (before : List (List ℕ))
      → IsSilent blocks (block ∷ before)
      → (setup.encode (block ∷ before) ≡ no_packet) ⊎ (setup.encode (block ∷ before) ≡ encoded [])
      → IsSilent (blocks ++ (block ∷ [])) before
  IsSilent-append [] block before h k = (k, tt)
  IsSilent-append (b ∷ blocks) block before (h, hs) k = (
    subst (λ bs. (setup.encode (b ∷ bs) ≡ no_packet) ⊎ (setup.encode (b ∷ bs) ≡ encoded []))
        (sym (append_assoc blocks (block ∷ []) before)) h,
    IsSilent-append blocks block before hs k,
  )

  -- A block that gave nothing, and then what a later call encodes.
  Asks-Encodes :
      (s t r : Stream)
      → (a : Asks s t)
      → (setup.encode (a.block ∷ s.blocks) ≡ no_packet)
        ⊎ (setup.encode (a.block ∷ s.blocks) ≡ encoded [])
      → Encodes t r
      → Encodes s r
  Asks-Encodes s t r a none_given g =
      let moved : g.earlier ++ t.blocks ≡ (g.earlier ++ (a.block ∷ [])) ++ s.blocks =
        ap (λ bs. g.earlier ++ bs) a.blocks
        ∙ sym (append_assoc g.earlier (a.block ∷ []) s.blocks) in
      record {
        block = g.block;
        earlier = g.earlier ++ (a.block ∷ []);
        first = g.first;
        packet = g.packet;
        blocks = g.blocks ∙ ap (◌∷◌ g.block) moved;
        is_block = g.is_block;
        are_blocks = All-append IsBlock g.earlier (a.block ∷ []) g.are_blocks (a.is_block, tt);
        silent =
            IsSilent-append g.earlier a.block s.blocks
              (subst (IsSilent g.earlier) a.blocks g.silent) none_given;
        is_packet = ap (λ bs. setup.encode (g.block ∷ bs)) (sym moved) ∙ g.is_packet;
        dst = g.dst;
        is_live = g.is_live;
        same_written = g.same_written ∙ a.same_written;
        kept = g.kept ∙ a.kept;
      }

  -- A block that gave a packet.
  Asks-packet :
      (s r : Stream) (c : ℕ) (packet : Bytes)
      → IsFresh s
      → Asks s r
      → r.dst ≡ c ∷ packet
      → Encodes s r
  Asks-packet s r c packet fresh a d = elim a.answer [
    | inl (silent, same) ↦ elim fresh [
      | inl empty ↦ absurd (ground (arith, same, d, empty))
      | inr prompt ↦ absurd (prompt a.block silent)
    ]
    | inr (given, live) ↦ record {
      block = a.block;
      earlier = [];
      first = c;
      packet = packet;
      blocks = a.blocks;
      is_block = a.is_block;
      are_blocks = tt;
      silent = tt;
      is_packet = given ∙ ap encoded d;
      dst = d;
      is_live = live;
      same_written = a.same_written;
      kept = a.kept;
    }
  ]

  -- A block that gave none, or an empty one.
  Asks-silent :
      (s r : Stream)
      → (a : Asks s r) → r.dst ≡ []
      → (setup.encode (a.block ∷ s.blocks) ≡ no_packet)
        ⊎ (setup.encode (a.block ∷ s.blocks) ≡ encoded [])
  Asks-silent s r a d = elim a.answer [
    | inl (silent, same) ↦ inl silent
    | inr (given, live) ↦ inr (given ∙ ap encoded d)
  ]

  Encodes-ready :
      (s r : Stream) (ready : Bytes) → Encodes s r → Encodes s (record r { ready = ready })
  Encodes-ready s r ready g = record {
    block = g.block;
    earlier = g.earlier;
    first = g.first;
    packet = g.packet;
    blocks = g.blocks;
    is_block = g.is_block;
    are_blocks = g.are_blocks;
    silent = g.silent;
    is_packet = g.is_packet;
    dst = g.dst;
    is_live = g.is_live;
    same_written = g.same_written;
    kept = g.kept;
  }

  transcode_next-Encodes :
      0 < setup.frame_size
      → (fuel : ℕ) (s : Stream) → IsFresh s
      → remaining s < fuel
      → Ensures (transcode_next setup fuel s) (λ r. is_positive r.0 ≡ true → Encodes s r.1)
  unfolding transcode_next
  transcode_next-Encodes size zero s fresh enough = absurd (omega (arith, enough))
  transcode_next-Encodes size (suc fuel) s fresh enough =
      Ensures-bind (encode_next setup s) _ (λ r. is_positive r.0 ≡ true → Asks s r.1)
        (λ r. is_positive r.0 ≡ true → Encodes s r.1) (encode_next-Asks s)
        (λ r f. elim (Bool-cases (is_positive r.0)) [
          | inr o ↦ rw o (λ p. absurd (ground (arith, p, o)))
          | inl o ↦
              let a : Asks s r.1 = f o in
              elim (List-cases r.1.dst) [
                | inl e ↦
                    rw (o, e)
                      (Ensures-weaken (transcode_next setup fuel r.1)
                        (λ u. is_positive u.0 ≡ true → Encodes r.1 u.1)
                        (λ u. is_positive u.0 ≡ true → Encodes s u.1)
                        (transcode_next-Encodes size fuel r.1 (inl e)
                          (omega (arith, Asks-remaining s r.1 a, size, enough)))
                        (λ u g p. Asks-Encodes s r.1 u.1 a (Asks-silent s r.1 a e) (g p)))
                | inr (c, packet, e) ↦
                    rw (o, e)
                      (λ _. Encodes-ready s r.1 (c ∷ packet) (Asks-packet s r.1 c packet fresh a e))
              ]
        ])

  write_frame-Writes :
      (s s' : Stream)
      → Encodes s s'
      → Ensures (write_frame setup s') (λ r. is_positive r.0 ≡ true → Writes s r.1)
  unfolding write_frame
  write_frame-Writes s s' g = elim (Bool-cases (setup.can_write (s'.dst ∷ s'.written))) [
    | inr o ↦ rw (g.is_live, write_frame, o) (λ p. absurd (ground (arith, p)))
    | inl o ↦
        rw (g.is_live, write_frame, o)
          (λ _. record {
            block = g.block;
            earlier = g.earlier;
            first = g.first;
            packet = g.packet;
            blocks = g.blocks;
            is_block = g.is_block;
            are_blocks = g.are_blocks;
            silent = g.silent;
            is_packet = g.is_packet;
            written = ap (λ d. d ∷ s'.written) g.dst ∙ ap (◌∷◌ (g.first ∷ g.packet)) g.same_written;
            kept = g.kept;
          })
  ]

  -- A call for a stream that is transcoded and muxed comes back when its fuel is more than the samples
  -- not yet encoded, for any encoder with frames that are not empty, provided that no packet is left
  -- from an earlier call, as it is until the encoder has given one, or that the encoder has an answer
  -- with a packet, or fails, for the next block. Where the call succeeds, the next samples of the track
  -- have been encoded in blocks of the frame size, the last of them is the first to give a packet that
  -- is not empty, that packet is written behind the others, and no sample is lost or moved.
  pub stream_next-Writes :
      (fuel : ℕ) (s : Stream)
      → setup.transcodes ≡ true
      → setup.remuxes ≡ true
      → 0 < setup.frame_size
      → IsFresh s
      → remaining s < fuel
      → Ensures (stream_next setup fuel s) (λ r. is_positive r.0 ≡ true → Writes s r.1)
  unfolding stream_next mux_next get_next write_frame
  stream_next-Writes zero s transcodes remuxes size fresh enough = absurd (omega (arith, enough))
  stream_next-Writes (suc fuel) s transcodes remuxes size fresh enough =
      simp (remuxes, stream_next, mux_next, get_next, transcodes)
        (Ensures-bind (transcode_next setup (suc fuel) s) _
          (λ r. is_positive r.0 ≡ true → Encodes s r.1) (λ r. is_positive r.0 ≡ true → Writes s r.1)
          (transcode_next-Encodes size (suc fuel) s fresh enough)
          (λ r f. elim (Bool-cases (is_positive r.0)) [
            | inr o ↦ rw o (λ p. absurd (ground (arith, p, o)))
            | inl o ↦ let g : Encodes s r.1 = f o in rw (o, g.dst) (write_frame-Writes s r.1 g)
          ]))

  -- In a stream that is transcoded and muxed and has encoded a packet, where the buffer has a block and the
  -- encoder gives no packet for it, the packet before, which has been unreferenced, is read once more.
  pub stream_next-stale :
      (fuel : ℕ) (s : Stream) (c : ℕ) (packet : Bytes)
      → setup.transcodes ≡ true
      → setup.remuxes ≡ true
      → setup.frame_size ≤ length s.src_buf
      → s.dst ≡ c ∷ packet
      → setup.encode (take setup.frame_size s.src_buf ∷ s.blocks) ≡ no_packet
      → stream_next setup (suc fuel) s ≡ fault out_of_bounds
  unfolding stream_next mux_next get_next transcode_next encode_next fill encode_block write_frame
  stream_next-stale fuel s c packet transcodes remuxes enough dst none_given = ground (
    arith,
    transcodes,
    remuxes,
    dst,
    none_given,
    le→leb setup.frame_size (length s.src_buf) enough,
  )
