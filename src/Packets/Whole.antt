-- ===== src/Packets/Whole.antt =====
-- src/sftp.rs, PacketLimitedStream: what is handed out is whole packets of allowed lengths, then the
-- beginning of one that has arrived.
use ax_ssh.Prelude.{
  ℕ, zero, suc, ◌-◌, ◌<◌, Bool, true, false, ◌||◌, ◌≡◌, ◌⊎◌, refl, inl, inr, Option, none, some,
  List, [], ◌∷◌, ◌++◌, length, take, arith,
}
use ax_ssh.Packets.{
  Reply, PacketStream, new_stream, Turn, ends, turns, read_turn, Read, some_bytes, read_loop,
  read_unless_failed, poll_read, read_fuel,
}
use ax_ssh.Packets.Moves.{
  bytes_of, IsPacket, ArePackets, flat, IsAt, IsStream, Moves, stays, Moves-trans,
}
use ax_ssh.Packets.Filled.{TurnOk}
use ax_ssh.Packets.Turns.{read_turn-TurnOk}

abbrev pub StreamOk : PacketStream → Type 0
StreamOk s = IsStream s ⊎ ((s.failed ≡ true) × (s.packet_emitted ≡ 0))

read_loop_lem :
    (fuel remaining : ℕ) (written : Bool) (s : PacketStream) (inner : List Reply)
    → IsStream s
    → Moves s inner
        (read_loop fuel remaining written s inner).1
        (read_loop fuel remaining written s inner).2
        (read_loop fuel remaining written s inner).3
      × StreamOk (read_loop fuel remaining written s inner).2
unfolding read_loop
read_loop_lem zero remaining written s inner v = (stays s inner, inl v)
read_loop_lem (suc fuel) remaining written s inner v =
    go (λ remaining written t later w. read_loop_lem fuel remaining written t later w)
      (read_turn remaining written s inner) (read_turn-TurnOk remaining written s inner v)
  where
    after : Turn → Read
    after (ends poll t later) = (poll, [], t, later)
    after (turns out t later) =
        let rest = read_loop fuel (remaining - length out) (written || some_bytes out) t later in
        (rest.0, out ++ rest.1, rest.2, rest.3)

    go :
        ((remaining : ℕ) (written : Bool) (t : PacketStream) (later : List Reply)
          → IsStream t
          → Moves t later
              (read_loop fuel remaining written t later).1
              (read_loop fuel remaining written t later).2
              (read_loop fuel remaining written t later).3
            × StreamOk (read_loop fuel remaining written t later).2)
        → (turn : Turn) → TurnOk s inner turn
        → Moves s inner (after turn).1 (after turn).2 (after turn).3 × StreamOk (after turn).2
    go ih (ends poll t later) w = w
    go ih (turns out t later) w =
        let rest = ih (remaining - length out) (written || some_bytes out) t later w.1 in
        (Moves-trans w.0 rest.0, rest.1)

poll_read_lem :
    (room : ℕ) (s : PacketStream) (inner : List Reply)
    → StreamOk s
    → Moves s inner (poll_read room s inner).1 (poll_read room s inner).2 (poll_read room s inner).3
      × StreamOk (poll_read room s inner).2
unfolding poll_read
poll_read_lem room s inner v = of s.failed refl v
  where
    of :
        (f : Bool)
        → s.failed ≡ f
        → StreamOk s
        → Moves s inner
            (read_unless_failed f room s inner).1
            (read_unless_failed f room s inner).2
            (read_unless_failed f room s inner).3
          × StreamOk (read_unless_failed f room s inner).2
    of true h v = (stays s inner, v)
    of false h (inl at) = read_loop_lem (read_fuel room inner) room false s inner at
    of false h (inr failed) = ground (arith, failed.0, h)

-- Polls with room for so many bytes, one after the other: the bytes in all, and what is left.
unfoldable pub reads : List ℕ → PacketStream → List Reply → List ℕ × PacketStream × List Reply
unfolding poll_read
reads [] s inner = ([], s, inner)
reads (room ∷ rooms) s inner =
    let now = poll_read room s inner in
    let rest = reads rooms now.2 now.3 in (now.1 ++ rest.0, rest.1, rest.2)

pub reads_lem :
    (rooms : List ℕ) (s : PacketStream) (inner : List Reply)
    → StreamOk s
    → Moves s inner (reads rooms s inner).0 (reads rooms s inner).1 (reads rooms s inner).2
      × StreamOk (reads rooms s inner).1
unfolding reads
reads_lem [] s inner v = (stays s inner, v)
reads_lem (room ∷ rooms) s inner v =
    let now = poll_read_lem room s inner v in
    let rest = reads_lem rooms (poll_read room s inner).2 (poll_read room s inner).3 now.1 in
    (Moves-trans now.0 rest.0, rest.1)

emitted-IsPacket : (s : PacketStream) → StreamOk s → 0 < s.packet_emitted → IsPacket s.packet
emitted-IsPacket s (inr failed) h = omega (arith, failed.1, h)
emitted-IsPacket s (inl at) h = of s.packet_target at
  where
    of : (o : Option ℕ) → IsAt o s.packet_emitted s.packet → IsPacket s.packet
    of none v = omega (arith, v.0, h)
    of (some t) v = record {
      whole = ground (arith, v.6, v.0, v.4);
      some_payload = v.1;
      bounded = v.2;
    }

-- Whatever comes in and however it is polled, no byte is lost or invented: the bytes that came in are
-- whole packets of 1 to 256 KiB, then the packet that is being read, then what still waits; and the
-- bytes handed out are these packets, then the beginning of the packet that is being read, of which
-- nothing is handed out before all of it, of an allowed length, has arrived.
pub reads-whole :
    (rooms : List ℕ) (inner : List Reply)
    → (packets : List (List ℕ)) × ArePackets packets
      × (bytes_of inner
          ≡ flat packets
            ++ ((reads rooms new_stream inner).1.packet
                ++ bytes_of (reads rooms new_stream inner).2))
      × ((reads rooms new_stream inner).0
          ≡ flat packets
            ++ take
                (reads rooms new_stream inner).1.packet_emitted
                (reads rooms new_stream inner).1.packet)
      × (0 < (reads rooms new_stream inner).1.packet_emitted
          → IsPacket (reads rooms new_stream inner).1.packet)
reads-whole rooms inner =
    let r = reads_lem rooms new_stream inner (inl (refl, omega arith)) in
    (
      r.0.packets,
      r.0.are_packets,
      r.0.taken,
      r.0.handed_out,
      emitted-IsPacket (reads rooms new_stream inner).1 r.1,
    )
