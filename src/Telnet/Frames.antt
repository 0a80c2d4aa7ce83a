-- ===== src/Telnet/Frames.antt =====
-- src/telnet.rs, `TelnetFrameBuffer`: incoming bytes are cut into text runs, escaped bytes and
-- whole protocol commands, and an unfinished command waits for more bytes.
pub mod Lossless
pub mod Items
pub mod Chunks
use ax_ssh.Prelude.{
  ℕ, zero, suc, ◌+◌, ◌*◌, ◌-◌, ◌^◌, Bool, true, false, ◌||◌, Option, none, some, List, [], ◌∷◌,
  ◌++◌, ltb, ◌==◌, if◌then◌else◌, length, take, drop,
}
use ax_ssh.Telnet.{Bytes, OpCommand}

abbrev pub max_protocol_frame_bytes : ℕ
max_protocol_frame_bytes = 64 * 1024

abbrev pub usize_max : ℕ
usize_max = 2 ^ 64 - 1

pub data InboundFrame : Type 0 where
  parser : Bytes → InboundFrame
  literal_data : Bytes → InboundFrame

pub data FrameError : Type 0 where
  length_overflow frame_too_large : FrameError

module _ (op : OpCommand) where
  open op use {iac, will, wont, do_, dont, sb, se}

  -- `iter().position(|byte| *byte == IAC).unwrap_or(len)`.
  unfoldable pub text_length : Bytes → ℕ
  text_length [] = 0
  text_length (b ∷ bs) = let rest = text_length bs in if b == iac then 0 else suc rest

  -- The loop of `subnegotiation_frame_length`, at `index`, over the bytes from there on.
  unfoldable pub subnegotiation_scan : ℕ → Bytes → Option ℕ
  subnegotiation_scan index [] = none
  subnegotiation_scan index (a ∷ []) = none
  subnegotiation_scan index (a ∷ b ∷ rest) =
      let one = subnegotiation_scan (index + 1) (b ∷ rest) in
      let two = subnegotiation_scan (index + 2) rest in
      if a == iac
      then (if b == iac then two else if b == se then some (index + 2) else two)
      else one

  unfoldable pub subnegotiation_frame_length : Bytes → Option ℕ
  unfolding subnegotiation_scan
  subnegotiation_frame_length buffer = subnegotiation_scan 2 (drop 2 buffer)

  -- `split_to(n).freeze()`, as a frame for the parser, with what is left.
  abbrev pub split_to : ℕ → Bytes → InboundFrame × Bytes
  split_to n pending = (parser (take n pending), drop n pending)

  -- The three cases of the match on `pending[1]` that wait for more bytes, and the rest.
  unfoldable pub command_frame : ℕ → Bytes → Option (InboundFrame × Bytes)
  unfolding subnegotiation_frame_length
  command_frame b pending =
      if b == iac
      then some (literal_data (iac ∷ []), drop 2 pending)
      else if b == will || b == wont || b == do_ || b == dont
      then (if ltb (length pending) 3 then none else some (split_to 3 pending))
      else if b == sb
      then (elim (subnegotiation_frame_length pending) [
        | none ↦ none
        | some n ↦ some (split_to n pending)
      ])
      else some (split_to 2 pending)

  -- One turn of the loop in `receive`; `none` is its `break`.
  unfoldable pub next_frame : Bytes → Option (InboundFrame × Bytes)
  unfolding text_length command_frame
  next_frame [] = none
  next_frame (a ∷ []) = if a == iac then none else some (split_to (text_length (a ∷ [])) (a ∷ []))
  next_frame (a ∷ b ∷ rest) =
      if a == iac
      then command_frame b (a ∷ b ∷ rest)
      else some (split_to (text_length (a ∷ b ∷ rest)) (a ∷ b ∷ rest))

  -- The loop: each turn takes at least a byte, so the length of `pending` is fuel enough.
  unfoldable pub frames : ℕ → Bytes → List InboundFrame × Bytes
  unfolding next_frame
  frames zero pending = ([], pending)
  frames (suc fuel) pending = elim (next_frame pending) [
    | none ↦ ([], pending)
    | some (frame, rest) ↦ let more = frames fuel rest in (frame ∷ more.0, more.1)
  ]

  pub data Received : Type 0 where
    -- The frames, and the bytes that wait for the next call.
    received : List InboundFrame → Bytes → Received
    -- An error leaves the pending bytes as they were.
    refused : FrameError → Received

  unfoldable pub receive : Bytes → Bytes → Received
  unfolding frames
  receive pending bytes =
      let buffered = length pending + length bytes in
      if ltb usize_max buffered
      then refused length_overflow
      else if ltb max_protocol_frame_bytes buffered
      then refused frame_too_large
      else (let all = pending ++ bytes in let out = frames (length all) all in received out.0 out.1)
