-- ===== src/Packets/Ends.antt =====
-- src/sftp.rs, PacketLimitedStream: a poll ends: each turn of its loop has less to do.
use ax_ssh.Prelude.{
  ℕ, zero, suc, ◌+◌, ◌-◌, ◌*◌, ◌<◌, Bool, true, false, ◌&&◌, ◌||◌, ◌≡◌, refl, inl, inr, Option,
  none, some, List, [], ◌∷◌, ◌++◌, length, arith, Bool-cases, ◌==◌, ltb,
}
use ax_ssh.Packets.{
  max_packet_bytes, Reply, InnerPoll, inner_data, inner_pending, inner_error, read_inner,
  PacketStream, new_stream, ReadPoll, ready, pending, inner_failed, unexpected_eof, invalid_length,
  out_of_fuel, from_be_bytes, target_or_header, Turn, ends, turns, parse_header, emit, filled_turn,
  filled_of, is_none, after_read, read_turn, Read, some_bytes, read_loop, read_unless_failed,
  poll_read, read_fuel, size,
}
use ax_ssh.Packets.Moves.{IsStream}
use ax_ssh.Packets.Filled.{TurnOk}
use ax_ssh.Packets.Turns.{read_turn-TurnOk}
use ax_ssh.Packets.Less.{work, IsLess, header_left, read_turn-IsLess}
use ax_ssh.Packets.Whole.{StreamOk, reads, reads_lem}

abbrev pub has_fuel : ReadPoll → Bool
has_fuel out_of_fuel = false
has_fuel ready = true
has_fuel pending = true
has_fuel inner_failed = true
has_fuel unexpected_eof = true
has_fuel (invalid_length n) = true

abbrev pub EndsTurn : Turn → Type 0
EndsTurn (ends poll t later) = has_fuel poll ≡ true
EndsTurn (turns out t later) = Unit

-- A turn never runs out of fuel.
filled_turn-EndsTurn :
    (remaining : ℕ) (s : PacketStream) (inner : List Reply) (o : Option ℕ)
    → EndsTurn (filled_of o remaining s inner)
unfolding parse_header emit
filled_turn-EndsTurn remaining s inner none =
    elim (Bool-cases
      ((from_be_bytes s.packet == 0) || ltb max_packet_bytes (from_be_bytes s.packet))) [
        | inl bad ↦ rw (bad) refl
        | inr allowed ↦ rw (allowed) tt
      ]
filled_turn-EndsTurn remaining s inner (some t) = tt

after_read-EndsTurn :
    (remaining : ℕ) (written : Bool) (s : PacketStream) (r : InnerPoll × List Reply)
    → EndsTurn (after_read remaining written s r)
unfolding after_read filled_turn
after_read-EndsTurn remaining true s (inner_pending, later) = refl
after_read-EndsTurn remaining false s (inner_pending, later) = refl
after_read-EndsTurn remaining written s (inner_error, later) = refl
after_read-EndsTurn remaining written s (inner_data [], later) =
    elim (Bool-cases ((length s.packet == 0) && is_none s.packet_target)) [
      | inl at_end ↦ rw (at_end) refl
      | inr inside ↦ rw (inside) refl
    ]
after_read-EndsTurn remaining written s (inner_data (b ∷ bs), later) =
    elim (Bool-cases (ltb (length (s.packet ++ (b ∷ bs))) (target_or_header s.packet_target))) [
      | inl waits_on ↦ rw (waits_on) tt
      | inr full ↦ rw (full) (
          filled_turn-EndsTurn remaining (record s { packet = s.packet ++ (b ∷ bs) }) later
            s.packet_target)
    ]

read_turn-EndsTurn :
    (remaining : ℕ) (written : Bool) (s : PacketStream) (inner : List Reply)
    → EndsTurn (read_turn remaining written s inner)
unfolding read_turn filled_turn
read_turn-EndsTurn zero written s inner = refl
read_turn-EndsTurn (suc room) written s inner =
    let target = target_or_header s.packet_target in
    elim (Bool-cases (ltb (length s.packet) target)) [
      | inl fills ↦
          rw (fills)
            (after_read-EndsTurn (suc room) written s (read_inner (target - length s.packet) inner))
      | inr full ↦ rw (full) (filled_turn-EndsTurn (suc room) s inner s.packet_target)
    ]

read_loop-ends :
    (fuel remaining : ℕ) (written : Bool) (s : PacketStream) (inner : List Reply)
    → IsStream s
    → work remaining s inner < fuel
    → has_fuel (read_loop fuel remaining written s inner).0 ≡ true
unfolding read_loop
read_loop-ends zero remaining written s inner v h = ground (arith, h)
read_loop-ends (suc fuel) remaining written s inner v h =
    go (λ remaining written t later w k. read_loop-ends fuel remaining written t later w k)
      (read_turn remaining written s inner) (read_turn-TurnOk remaining written s inner v)
      (read_turn-IsLess remaining written s inner v) (read_turn-EndsTurn remaining written s inner)
  where
    after : Turn → Read
    after (ends poll t later) = (poll, [], t, later)
    after (turns out t later) =
        let rest = read_loop fuel (remaining - length out) (written || some_bytes out) t later in
        (rest.0, out ++ rest.1, rest.2, rest.3)

    go :
        ((remaining : ℕ) (written : Bool) (t : PacketStream) (later : List Reply)
          → IsStream t
          → work remaining t later < fuel
          → has_fuel (read_loop fuel remaining written t later).0 ≡ true)
        → (turn : Turn) → TurnOk s inner turn
        → IsLess remaining s inner turn
        → EndsTurn turn
        → has_fuel (after turn).0 ≡ true
    go ih (ends poll t later) w l f = f
    go ih (turns out t later) w l f =
        ih (remaining - length out) (written || some_bytes out) t later w.1 (omega (arith, l, h))

-- A poll of a stream with any history ends within its fuel, whatever the inner stream says and however
-- much room there is.
pub poll_read-ends :
    (rooms : List ℕ) (inner : List Reply) (room : ℕ)
    → has_fuel (poll_read room (reads rooms new_stream inner).1 (reads rooms new_stream inner).2).0
      ≡ true
unfolding poll_read
poll_read-ends rooms inner room =
    of (reads rooms new_stream inner).1 (reads rooms new_stream inner).2
      (reads_lem rooms new_stream inner (inl (refl, omega arith))).1
  where
    of :
        (s : PacketStream) (inner : List Reply)
        → StreamOk s
        → has_fuel (read_unless_failed s.failed room s inner).0 ≡ true
    of s inner v = by_failed s.failed refl v
      where
        by_failed :
            (f : Bool)
            → s.failed ≡ f
            → StreamOk s
            → has_fuel (read_unless_failed f room s inner).0 ≡ true
        by_failed true h v = refl
        by_failed false h (inl at) =
            read_loop-ends (read_fuel room inner) room false s inner at (enough s.packet_target)
          where
            enough : (o : Option ℕ) → 2 * room + size inner + header_left o < read_fuel room inner
            enough none = omega arith
            enough (some t) = omega arith
        by_failed false h (inr failed) = ground (arith, failed.0, h)
