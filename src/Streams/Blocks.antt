-- ===== src/Streams/Blocks.antt =====
-- src/stream.c: the samples that are encoded, in blocks of the encoder's frame size, and when the loops
-- end.
use mathlib.Core.Path.{subst}
use musicd.Base.{
  ℕ, zero, suc, ◌≤◌, ◌<◌, ◌≡◌, refl, sym, ap, ◌∙◌, ◌⊎◌, true, ◌&&◌, List, [], ◌∷◌, ◌++◌,
  append_assoc, ◌==◌, leb, leb→le, if◌then◌else◌, Bytes, length, ℤ, is_positive, arith, Bool-cases,
  inl, inr,
}
use musicd.Memory.{Ensures, Ensures-weaken}
use musicd.Streams.{
  Decoded, broken, no_frame, samples, Packet, Stream, Setup, ReadNext, ended, next, read_next,
  decode_next, fill,
}

-- The samples of a packet of the track, and of all that are left.
abbrev pub samples_of : Packet → List ℕ
samples_of packet =
    if packet.stream_index == 0
    then elim packet.decoded as (λ _. List ℕ) [
      | broken ↦ []
      | no_frame ↦ []
      | samples frame ↦ frame
    ]
    else []

abbrev pub all_samples : List Packet → List ℕ
all_samples [] = []
all_samples (packet ∷ packets) = samples_of packet ++ all_samples packets

-- The blocks in their order.
abbrev pub in_order : List (List ℕ) → List ℕ
in_order [] = []
in_order (block ∷ blocks) = in_order blocks ++ block

-- All samples: those encoded, those in the buffer and those to come.
abbrev pub whole : Stream → List ℕ
whole s = in_order s.blocks ++ (s.src_buf ++ all_samples s.packets)

module _ (setup : Setup) where
  -- What reading does: it takes at least a packet, and loses no samples.
  read_next-next :
      (packets : List Packet) {p : Packet} {rest : List Packet}
      → read_next setup packets ≡ next p rest
      → (all_samples packets ≡ samples_of p ++ all_samples rest)
        × (length rest < length packets)
        × ((p.stream_index == 0) ≡ true)
  unfolding read_next
  read_next-next [] h = absurd (ground (arith, h))
  read_next-next (q ∷ packets) {p} {rest} h = elim (Bool-cases (q.stream_index == 0)) [
    | inr e ↦
        let (a, b, c) = read_next-next packets (rw (e, read_next) at h) in
        (rw e a, omega (arith, b), c)
    | inl e ↦ elim (Bool-cases (q.past_end && setup.has_cuefile)) [
      | inl x ↦ absurd (ground (arith, h, e, x))
      | inr x ↦
          let same : next q packets ≡ next p rest = rw (e, read_next, x) at h in
          let eq : q ≡ p = cc in
          let eqs : packets ≡ rest = cc in
          (
            ap (λ w. samples_of w ++ all_samples packets) eq
                ∙ ap (λ w. samples_of p ++ all_samples w) eqs,
            omega (arith, ap length eqs),
            subst (λ (w : Packet). (w.stream_index == 0) ≡ true) eq e,
          )
    ]
  ]

  ReadNext-cases :
      (r : ReadNext)
      → ((payload : Bytes) × (rest : List Packet) × (r ≡ ended payload rest))
        ⊎ ((p : Packet) × (rest : List Packet) × (r ≡ next p rest))
  ReadNext-cases (ended payload rest) = inl (payload, rest, refl)
  ReadNext-cases (next p rest) = inr (p, rest, refl)

  Decoded-cases :
      (d : Decoded) → ((d ≡ broken) ⊎ (d ≡ no_frame)) ⊎ ((frame : List ℕ) × (d ≡ samples frame))
  Decoded-cases broken = inl (inl refl)
  Decoded-cases no_frame = inl (inr refl)
  Decoded-cases (samples frame) = inr (frame, refl)

  -- A step of the decoder: the packets get fewer, and where it goes on no sample is lost.
  pub record Decodes (s : Stream) (r : ℤ × Stream) : Type 0 where
    pub fewer : is_positive r.0 ≡ true → length r.1.packets < length s.packets
    pub kept : is_positive r.0 ≡ true → whole r.1 ≡ whole s
    pub same_blocks : r.1.blocks ≡ s.blocks
    pub same_written : r.1.written ≡ s.written
    pub same_dst : r.1.dst ≡ s.dst

  decode_next-Decodes : (s : Stream) → Decodes s (decode_next setup s)
  unfolding decode_next
  decode_next-Decodes s = elim (ReadNext-cases (read_next setup s.packets)) [
    | inl (payload, rest, e) ↦
        rw (e, decode_next)
          (record {
            fewer = λ h. absurd (ground (arith, h));
            kept = λ h. absurd (ground (arith, h));
            same_blocks = refl;
            same_written = refl;
            same_dst = refl;
          })
    | inr (p, rest, e) ↦
        let (all, less, first) = read_next-next s.packets e in
        let no_samples : samples_of p ≡ [] → whole (record s { packets = rest }) ≡ whole s = λ o.
          ap (λ w. in_order s.blocks ++ (s.src_buf ++ w))
            (ap (λ w. w ++ all_samples rest) (sym o) ∙ sym all) in
        elim (Decoded-cases p.decoded) [
          | inl (inl d) ↦
              rw (e, decode_next, d)
                (record {
                  fewer = λ _. less;
                  kept = λ _. no_samples (rw (first, d) refl);
                  same_blocks = refl;
                  same_written = refl;
                  same_dst = refl;
                })
          | inl (inr d) ↦
              rw (e, decode_next, d)
                (record {
                  fewer = λ _. less;
                  kept = λ _. no_samples (rw (first, d) refl);
                  same_blocks = refl;
                  same_written = refl;
                  same_dst = refl;
                })
          | inr (frame, d) ↦
              let here : samples_of p ≡ frame = rw (first, d) refl in
              rw (e, decode_next, d)
                (record {
                  fewer = λ _. less;
                  kept = λ _.
                      ap (λ w. in_order s.blocks ++ w)
                        (append_assoc s.src_buf frame (all_samples rest)
                          ∙ ap (λ w. s.src_buf ++ (w ++ all_samples rest)) (sym here)
                          ∙ ap (λ w. s.src_buf ++ w) (sym all));
                  same_blocks = refl;
                  same_written = refl;
                  same_dst = refl;
                })
        ]
  ]

  -- The loop before a block: it ends, and where it goes on the buffer has a block.
  pub record Fills (s : Stream) (r : ℤ × Stream) : Type 0 where
    pub kept : is_positive r.0 ≡ true → whole r.1 ≡ whole s
    pub enough : is_positive r.0 ≡ true → setup.frame_size ≤ length r.1.src_buf
    pub same_blocks : r.1.blocks ≡ s.blocks
    pub same_written : r.1.written ≡ s.written
    pub same_dst : r.1.dst ≡ s.dst

  pub fill-Fills :
      (fuel : ℕ) (s : Stream) → length s.packets < fuel → Ensures (fill setup fuel s) (Fills s)
  unfolding fill
  fill-Fills zero s h = absurd (omega (arith, h))
  fill-Fills (suc fuel) s h = elim (Bool-cases (leb setup.frame_size (length s.src_buf))) [
    | inl e ↦
        rw (e, fill, Ensures)
          (record {
            kept = λ _. refl;
            enough = λ _. leb→le setup.frame_size (length s.src_buf) e;
            same_blocks = refl;
            same_written = refl;
            same_dst = refl;
          })
    | inr e ↦
        let step : Decodes s (decode_next setup s) = decode_next-Decodes s in
        elim (Bool-cases (is_positive (decode_next setup s).0)) [
          | inr o ↦
              rw (e, fill, o, Ensures)
                (record {
                  kept = λ p. absurd (ground (arith, p, o));
                  enough = λ p. absurd (ground (arith, p, o));
                  same_blocks = step.same_blocks;
                  same_written = step.same_written;
                  same_dst = step.same_dst;
                })
          | inl o ↦
              rw (e, fill, o)
                (Ensures-weaken (fill setup fuel (decode_next setup s).1)
                  (Fills (decode_next setup s).1) (Fills s)
                  (fill-Fills fuel (decode_next setup s).1 (omega (arith, h, step.fewer o)))
                  (λ r f. record {
                    kept = λ p. f.kept p ∙ step.kept o;
                    enough = f.enough;
                    same_blocks = f.same_blocks ∙ step.same_blocks;
                    same_written = f.same_written ∙ step.same_written;
                    same_dst = f.same_dst ∙ step.same_dst;
                  }))
        ]
  ]
