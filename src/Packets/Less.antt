-- ===== src/Packets/Less.antt =====
-- src/sftp.rs, PacketLimitedStream: a poll ends: each turn of its loop has less to do.
use ax_ssh.Prelude.{
  ℕ, zero, suc, ◌+◌, ◌-◌, ◌*◌, ◌≤◌, ◌<◌, min, Bool, ◌&&◌, ◌||◌, ◌≡◌, refl, ap, inl, inr, Option,
  none, some, List, [], ◌∷◌, ◌++◌, length, length-take, length-drop, take, drop, arith, Bool-cases,
  ◌==◌, ltb,
}
use ax_ssh.Packets.{
  max_packet_bytes, Reply, arrives, waits, breaks, InnerPoll, inner_data, inner_pending,
  inner_error, left_over, read_inner, PacketStream, from_be_bytes, target_or_header, Turn, ends,
  turns, parse_header, emit, filled_turn, filled_of, is_none, after_read, read_turn, size,
}
use ax_ssh.Packets.Moves.{IsAt, IsStream, got, read_inner-room}
use ax_ssh.Packets.Turns.{grown, full_some}

-- What is left to do: room to fill, what the inner stream says, and a length to read.
abbrev pub header_left : Option ℕ → ℕ
header_left none = 1
header_left (some t) = 0

abbrev pub work : ℕ → PacketStream → List Reply → ℕ
work remaining s inner = 2 * remaining + size inner + header_left s.packet_target

-- A turn that goes on leaves less to do.
abbrev pub IsLess : ℕ → PacketStream → List Reply → Turn → Type 0
IsLess remaining s inner (ends poll t later) = Unit
IsLess remaining s inner (turns out t later) =
    work (remaining - length out) t later < work remaining s inner

left_over-size :
    (bs : List ℕ) (rest : List Reply) → size (left_over bs rest) ≤ suc (length bs) + size rest
unfolding size
left_over-size [] rest = omega arith
left_over-size (b ∷ bs) rest = omega arith

read_inner-size :
    (room : ℕ) (inner : List Reply)
    → 0 < length (got (read_inner room inner).0)
    → size (read_inner room inner).1 < size inner
unfolding read_inner size
read_inner-size room [] h = omega (arith, h)
read_inner-size room (waits ∷ rest) h = omega (arith, h)
read_inner-size room (breaks ∷ rest) h = omega (arith, h)
read_inner-size room (arrives bs ∷ rest) h =
    dropped (drop room bs) (omega (arith, h, length-take room bs, length-drop room bs))
  where
    dropped :
        (ds : List ℕ)
        → length ds < length bs
        → size (left_over ds rest) < suc (length bs) + size rest
    dropped ds k = omega (arith, k, left_over-size ds rest)

emit-IsLess :
    (room target : ℕ) (s : PacketStream) (inner : List Reply)
    → s.packet_target ≡ some target
    → s.packet_emitted < target
    → length s.packet ≡ target
    → IsLess (suc room) s inner (emit (suc room) target s inner)
unfolding emit
emit-IsLess room target s inner at h whole =
    let count = min (suc room) (target - s.packet_emitted) in
    let given : length (take count (drop s.packet_emitted s.packet)) ≡ count = omega (
      arith,
      length-take count (drop s.packet_emitted s.packet),
      length-drop s.packet_emitted s.packet,
      whole,
    ) in
    elim (Bool-cases (s.packet_emitted + count == target)) [
      | inl done ↦ rw (done) (omega (arith, given, h))
      | inr more ↦ rw (more) (omega (arith, given, h))
    ]

filled_turn-IsLess :
    (room : ℕ) (s : PacketStream) (inner : List Reply) (o : Option ℕ)
    → s.packet_target ≡ o
    → ((target : ℕ)
        → o ≡ some target
        → IsAt (some target) s.packet_emitted s.packet × (length s.packet ≡ target))
    → IsLess (suc room) s inner (filled_of o (suc room) s inner)
unfolding parse_header
filled_turn-IsLess room s inner none at k =
    elim (Bool-cases
      ((from_be_bytes s.packet == 0) || ltb max_packet_bytes (from_be_bytes s.packet))) [
        | inl bad ↦ rw (bad) tt
        | inr allowed ↦ rw (allowed) (omega (arith, ap header_left at))
      ]
filled_turn-IsLess room s inner (some target) at k =
    let v = k target refl in emit-IsLess room target s inner at v.0.5 v.1

-- Less to do than with less to do.
IsLess-trans :
    (remaining : ℕ) (s t : PacketStream) (i j : List Reply) (turn : Turn)
    → work remaining t j ≤ work remaining s i
    → IsLess remaining t j turn
    → IsLess remaining s i turn
IsLess-trans remaining s t i j (ends poll u k) h v = tt
IsLess-trans remaining s t i j (turns out u k) h v = omega (arith, h, v)

after_read-IsLess :
    (room : ℕ) (written : Bool) (s : PacketStream) (inner : List Reply) (r : InnerPoll × List Reply)
    → IsStream s
    → length s.packet < target_or_header s.packet_target
    → length (got r.0) ≤ target_or_header s.packet_target - length s.packet
    → (0 < length (got r.0) → size r.1 < size inner)
    → IsLess (suc room) s inner (after_read (suc room) written s r)
unfolding after_read filled_turn
after_read-IsLess room written s inner (inner_pending, later) v h k e = tt
after_read-IsLess room written s inner (inner_error, later) v h k e = tt
after_read-IsLess room written s inner (inner_data [], later) v h k e =
    elim (Bool-cases ((length s.packet == 0) && is_none s.packet_target)) [
      | inl at_end ↦ rw (at_end) tt
      | inr inside ↦ rw (inside) tt
    ]
after_read-IsLess room written s inner (inner_data (b ∷ bs), later) v h k e =
    let smaller = e (omega arith) in
    let g = grown s.packet_target s.packet_emitted s.packet (b ∷ bs) v h k in
    let more : PacketStream = record s { packet = s.packet ++ (b ∷ bs) } in
    elim (Bool-cases (ltb (length (s.packet ++ (b ∷ bs))) (target_or_header s.packet_target))) [
      | inl waits_on ↦ rw (waits_on) (omega (arith, smaller))
      | inr full ↦ rw (full) (
          IsLess-trans (suc room) s more inner later (filled_turn (suc room) more later)
            (omega (arith, smaller))
            (filled_turn-IsLess room more later s.packet_target refl (g.1.2 (ground arith))))
    ]

pub read_turn-IsLess :
    (remaining : ℕ) (written : Bool) (s : PacketStream) (inner : List Reply)
    → IsStream s
    → IsLess remaining s inner (read_turn remaining written s inner)
unfolding read_turn filled_turn
read_turn-IsLess zero written s inner v = tt
read_turn-IsLess (suc room) written s inner v =
    let target = target_or_header s.packet_target in
    elim (Bool-cases (ltb (length s.packet) target)) [
      | inl fills ↦ rw (fills) (
          after_read-IsLess room written s inner (read_inner (target - length s.packet) inner) v
            (ground arith) (read_inner-room (target - length s.packet) inner)
            (read_inner-size (target - length s.packet) inner))
      | inr full ↦ rw (full) (
          filled_turn-IsLess room s inner s.packet_target refl
            (full_some s.packet_target s.packet_emitted s.packet v (ground arith)))
    ]
