-- ===== src/Telnet/Frames/Lossless.antt =====
-- src/telnet.rs, `TelnetFrameBuffer::receive`: no byte is lost, none waits that could go.
use ax_ssh.Prelude.{
  inl, inr, ℕ, zero, suc, ◌+◌, ◌≤◌, ◌<◌, ◌≡◌, refl, none, some, List, [], ◌∷◌, ◌++◌, append_assoc,
  arith, length, take, drop, take-append-drop, length-drop, Option-cases, ap, ◌∙◌,
}
use ax_ssh.Telnet.{Bytes, OpCommand}
use ax_ssh.Telnet.Frames.{
  InboundFrame, parser, literal_data, text_length, subnegotiation_scan, command_frame, next_frame,
  frames,
}

module _ (op : OpCommand) where
  -- The bytes of a frame on the wire: a literal byte stands for itself behind an `IAC`.
  abbrev pub wire : InboundFrame → Bytes
  wire (parser bs) = bs
  wire (literal_data bs) = op.iac ∷ bs

  abbrev pub wire_all : List InboundFrame → Bytes
  wire_all [] = []
  wire_all (f ∷ fs) = wire f ++ wire_all fs

  pub subnegotiation_scan-le :
      (bs : Bytes) (i n : ℕ)
      → subnegotiation_scan op i bs ≡ some n
      → (i + 2 ≤ n) × (n ≤ i + length bs)
  unfolding subnegotiation_scan
  subnegotiation_scan-le [] i n h = cc
  subnegotiation_scan-le (a ∷ []) i n h = cc
  subnegotiation_scan-le (a ∷ b ∷ rest) i n h =
      ground
        (arith, subnegotiation_scan-le (b ∷ rest) (i + 1) n, subnegotiation_scan-le rest (i + 2) n)

  -- Cutting a positive number of bytes off the front loses none of them.
  split_wire :
      (n : ℕ) (bs : Bytes)
      → 0 < n
      → 0 < length bs
      → (take n bs ++ drop n bs ≡ bs) × (length (drop n bs) < length bs)
  split_wire n bs h k = (take-append-drop n bs, omega (arith, length-drop n bs))

  command_frame-wire :
      (b : ℕ) (rest : Bytes) (f : InboundFrame) (after : Bytes)
      → command_frame op b (op.iac ∷ b ∷ rest) ≡ some (f, after)
      → (wire f ++ after ≡ op.iac ∷ b ∷ rest) × (length after < length (op.iac ∷ b ∷ rest))
  unfolding command_frame
  command_frame-wire b rest f after h = elim (Option-cases (subnegotiation_scan op 2 rest)) [
    | inl none_found ↦ ground (arith, split_wire 3 (op.iac ∷ b ∷ rest))
    | inr (n, found) ↦ ground (
      arith,
      subnegotiation_scan-le rest 2 n,
      split_wire n (op.iac ∷ b ∷ rest),
      split_wire 3 (op.iac ∷ b ∷ rest),
    )
  ]

  -- A turn takes at least one byte, and its frame with what is left is what there was.
  pub next_frame-wire :
      (bs : Bytes) (f : InboundFrame) (rest : Bytes)
      → next_frame op bs ≡ some (f, rest)
      → (wire f ++ rest ≡ bs) × (length rest < length bs)
  unfolding next_frame text_length
  next_frame-wire [] f after h = cc
  next_frame-wire (a ∷ []) f after h = ground arith
  next_frame-wire (a ∷ b ∷ rest) f after h = ground (
    arith,
    command_frame-wire b rest f after,
    split_wire (text_length op (a ∷ b ∷ rest)) (a ∷ b ∷ rest),
  )

  -- The frames hold the bytes in front of those that wait.
  pub frames-wire :
      (fuel : ℕ) (bs : Bytes) → wire_all (frames op fuel bs).0 ++ (frames op fuel bs).1 ≡ bs
  unfolding frames
  frames-wire zero bs = refl
  frames-wire (suc fuel) bs = elim (Option-cases (next_frame op bs)) [
    | inl stop ↦ rw (stop, frames)
    | inr ((f, rest), turn) ↦
        rw (turn, frames)
          (append_assoc (wire f) _ _
            ∙ ap (◌++◌ (wire f)) (frames-wire fuel rest)
            ∙ (next_frame-wire bs f rest turn).0)
  ]

  -- Fuel for every byte is enough: no turn is left to take.
  pub frames_settled :
      (fuel : ℕ) (bs : Bytes) → length bs ≤ fuel → next_frame op (frames op fuel bs).1 ≡ none
  unfolding frames
  frames_settled zero [] h = unfold next_frame in refl
  frames_settled zero (a ∷ bs) h = absurd (omega arith)
  frames_settled (suc fuel) bs h = elim (Option-cases (next_frame op bs)) [
    | inl stop ↦ rw (stop, frames) stop
    | inr ((f, rest), turn) ↦
        rw (turn, frames)
          (frames_settled fuel rest (omega (arith, (next_frame-wire bs f rest turn).1)))
  ]
