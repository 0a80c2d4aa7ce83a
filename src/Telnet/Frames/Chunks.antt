-- ===== src/Telnet/Frames/Chunks.antt =====
-- src/telnet.rs, `TelnetFrameBuffer`: `receive` reads a stream item by item, in whatever chunks it
-- comes.
use ax_ssh.Prelude.{
  ℕ, zero, suc, ◌<◌, true, false, ◌≤◌, ◌≡◌, refl, none, some, List, [], ◌∷◌, ◌++◌, append_assoc,
  arith, length, take, drop, Option-cases, Bool-cases, ◌==◌, inl, inr, map, subst,
}
use ax_ssh.Telnet.{Bytes, OpCommand}
use ax_ssh.Telnet.Frames.{
  InboundFrame, parser, text_length, subnegotiation_scan, command_frame, next_frame, frames,
  receive, received,
}
use ax_ssh.Telnet.Frames.Lossless.{next_frame-wire, subnegotiation_scan-le}
use ax_ssh.Telnet.Frames.Items.{
  Item, text, unit, items, items_all, next_item, Drains, stop, more, Drains-append, Drains-unique,
}

module _ (op : OpCommand) where
  next_item_text :
      (b : ℕ) (bs : Bytes) → (b == op.iac) ≡ false → next_item op (b ∷ bs) ≡ some (text b, bs)
  unfolding next_item
  next_item_text b bs plain = ground arith

  Drains-text :
      (bs out : Bytes) (is : List Item)
      → Drains op out (drop (text_length op bs) bs) is
      → Drains op out bs (map text (take (text_length op bs) bs) ++ is)
  unfolding text_length
  Drains-text [] out is d = d
  Drains-text (b ∷ bs) out is d = elim (Bool-cases (b == op.iac)) [
    | inl command ↦ rw command (rw command at d)
    | inr plain ↦
        rw plain (more (next_item_text b bs plain) (Drains-text bs out is (rw plain at d)))
  ]

  split_items :
      (n : ℕ) (bs : Bytes)
      → 0 < n
      → items op (parser (take n (op.iac ∷ bs))) ≡ unit (parser (take n (op.iac ∷ bs))) ∷ []
  split_items zero bs h = absurd (omega arith)
  split_items (suc n) bs h = ground arith

  command_frame-items :
      (b : ℕ) (rest after : Bytes) (f : InboundFrame)
      → command_frame op b (op.iac ∷ b ∷ rest) ≡ some (f, after)
      → items op f ≡ unit f ∷ []
  unfolding command_frame
  command_frame-items b rest after f h = elim (Option-cases (subnegotiation_scan op 2 rest)) [
    | inl none_found ↦ ground arith
    | inr (n, found) ↦ ground (arith, subnegotiation_scan-le op rest 2 n, split_items n (b ∷ rest))
  ]

  turn_command :
      (a : ℕ) (bs rest : Bytes) (f : InboundFrame)
      → (a == op.iac) ≡ true
      → next_frame op (a ∷ bs) ≡ some (f, rest)
      → (next_item op (a ∷ bs) ≡ some (unit f, rest)) × (items op f ≡ unit f ∷ [])
  unfolding next_item next_frame
  turn_command a [] rest f e h = ground arith
  turn_command a (b ∷ bs) rest f e h = ground (arith, command_frame-items b bs rest f)

  turn_text :
      (a : ℕ) (bs rest : Bytes) (f : InboundFrame)
      → (a == op.iac) ≡ false
      → next_frame op (a ∷ bs) ≡ some (f, rest)
      → (rest ≡ drop (text_length op (a ∷ bs)) (a ∷ bs))
        × (items op f ≡ map text (take (text_length op (a ∷ bs)) (a ∷ bs)))
  unfolding next_frame text_length
  turn_text a [] rest f e h = ground arith
  turn_text a (b ∷ bs) rest f e h = ground arith

  -- One turn of the loop is one command, or a run of text.
  Drains-turn :
      (bs rest out : Bytes) (f : InboundFrame) (is : List Item)
      → next_frame op bs ≡ some (f, rest)
      → Drains op out rest is
      → Drains op out bs (items op f ++ is)
  Drains-turn [] rest out f is h d = absurd (unfold next_frame in cc)
  Drains-turn (a ∷ bs) rest out f is h d = elim (Bool-cases (a == op.iac)) [
    | inl command ↦ let turn = turn_command a bs rest f command h in rw turn.1 (more turn.0 d)
    | inr plain ↦
        let turn = turn_text a bs rest f plain h in
        rw turn.1 (Drains-text (a ∷ bs) out is (subst (λ r. Drains op out r is) turn.0 d))
  ]

  next_item-none : (bs : Bytes) → next_frame op bs ≡ none → next_item op bs ≡ none
  unfolding next_item next_frame
  next_item-none [] h = refl
  next_item-none (a ∷ []) h = ground arith
  next_item-none (a ∷ b ∷ bs) h = ground arith

  -- The frames of the loop are the items of the stream.
  Drains-frames :
      (fuel : ℕ) (bs : Bytes)
      → length bs ≤ fuel
      → Drains op (frames op fuel bs).1 bs (items_all op (frames op fuel bs).0)
  unfolding frames
  Drains-frames zero [] h = stop refl (next_item-none [] (unfold next_frame in refl))
  Drains-frames zero (a ∷ bs) h = absurd (omega arith)
  Drains-frames (suc fuel) bs h = elim (Option-cases (next_frame op bs)) [
    | inl settled ↦ rw (settled, frames) (stop refl (next_item-none bs settled))
    | inr ((f, rest), turn) ↦
        rw (turn, frames)
          (Drains-turn bs rest _ f _ turn
            (Drains-frames fuel rest (omega (arith, (next_frame-wire op bs f rest turn).1))))
  ]

  -- A call of `receive` that succeeds reads the items of the bytes that waited and the new ones.
  receive-Drains :
      (pending bytes rest : Bytes) (fs : List InboundFrame)
      → receive op pending bytes ≡ received fs rest
      → Drains op rest (pending ++ bytes) (items_all op fs)
  unfolding receive
  receive-Drains pending bytes rest fs h =
      let all : Bytes = pending ++ bytes in
      let same : (rest ≡ (frames op (length all) all).1) × (fs ≡ (frames op (length all) all).0) =
        ground arith in
      rw (same.0, same.1) (Drains-frames (length all) all (omega arith))

  -- Bytes that arrive in two chunks give the items, and leave waiting the bytes, that they do when
  -- they arrive at once, whatever the chunks are, if no call is refused.
  pub receive_chunks :
      (pending a b : Bytes) (fs gs hs : List InboundFrame) (mid rest rest' : Bytes)
      → receive op pending a ≡ received fs mid
      → receive op mid b ≡ received gs rest
      → receive op pending (a ++ b) ≡ received hs rest'
      → (items_all op hs ≡ items_all op fs ++ items_all op gs) × (rest' ≡ rest)
  receive_chunks pending a b fs gs hs mid rest rest' first second once =
      Drains-unique op (receive-Drains pending (a ++ b) rest' hs once) (
        rw (← append_assoc pending a b) (
          Drains-append op b (receive-Drains pending a mid fs first)
            (receive-Drains mid b rest gs second)))
