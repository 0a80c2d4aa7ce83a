-- ===== src/Packets.antt =====
-- src/sftp.rs, PacketLimitedStream: whole packets of bounded length out of a stream of bytes.
pub mod Moves
pub mod Filled
pub mod Turns
pub mod Less
pub mod Whole
pub mod Ends
use ax_ssh.Prelude.{
  ℕ, zero, suc, ◌+◌, ◌-◌, ◌*◌, ◌^◌, min, Bool, true, false, ◌&&◌, ◌||◌, Option, none, some, List,
  [], ◌∷◌, ◌++◌, ◌==◌, ltb, length, take, drop, if◌then◌else◌,
}

abbrev pub max_packet_bytes : ℕ
max_packet_bytes = 262144

-- What the inner stream has to say, poll by poll: bytes, of which a poll takes what it has room for
-- (none at all means its end), nothing yet, or an error. With nothing left it has nothing yet.
pub data Reply : Type 0 where
  arrives : List ℕ → Reply
  waits breaks : Reply

pub data InnerPoll : Type 0 where
  inner_data : List ℕ → InnerPoll
  inner_pending inner_error : InnerPoll

-- The rest of a reply, before what is to come.
abbrev pub left_over : List ℕ → List Reply → List Reply
left_over [] rest = rest
left_over (b ∷ bs) rest = arrives (b ∷ bs) ∷ rest

unfoldable pub read_inner : ℕ → List Reply → InnerPoll × List Reply
read_inner room [] = (inner_pending, [])
read_inner room (waits ∷ rest) = (inner_pending, rest)
read_inner room (breaks ∷ rest) = (inner_error, rest)
read_inner room (arrives bs ∷ rest) = (inner_data (take room bs), left_over (drop room bs) rest)

-- `packet` is the part of the buffer that is filled, so its length is `packet_filled`.
pub record PacketStream : Type 0 where
  pub packet : List ℕ
  pub packet_emitted : ℕ
  pub packet_target : Option ℕ
  pub failed : Bool

abbrev pub new_stream : PacketStream
new_stream = record { packet = []; packet_emitted = 0; packet_target = none; failed = false }

pub data ReadPoll : Type 0 where
  ready pending : ReadPoll
  -- The error of the inner stream, an end inside a packet, and a length out of bounds.
  inner_failed unexpected_eof : ReadPoll
  invalid_length : ℕ → ReadPoll
  out_of_fuel : ReadPoll

-- `u32::from_be_bytes`, of the first four bytes.
abbrev pub from_be_bytes : List ℕ → ℕ
from_be_bytes [] = 0
from_be_bytes (a ∷ []) = 0
from_be_bytes (a ∷ b ∷ []) = 0
from_be_bytes (a ∷ b ∷ c ∷ []) = 0
from_be_bytes (a ∷ b ∷ c ∷ d ∷ bs) = a * 16777216 + b * 65536 + c * 256 + d

abbrev pub target_or_header : Option ℕ → ℕ
target_or_header none = 4
target_or_header (some target) = target

-- A turn of the loop: the poll ends, or it goes on after handing out some bytes.
pub data Turn : Type 0 where
  ends : ReadPoll → PacketStream → List Reply → Turn
  turns : List ℕ → PacketStream → List Reply → Turn

-- The length of a packet, once its four bytes are there.
unfoldable pub parse_header : PacketStream → List Reply → Turn
parse_header s inner =
    let packet_len = from_be_bytes s.packet in
    if (packet_len == 0) || ltb max_packet_bytes packet_len
    then ends (invalid_length packet_len) (record s { failed = true }) inner
    else turns [] (record s { packet_target = some (4 + packet_len) }) inner

-- What fits of a whole packet.
unfoldable pub emit : ℕ → ℕ → PacketStream → List Reply → Turn
emit remaining target s inner =
    let count = min remaining (target - s.packet_emitted) in
    let end_at = s.packet_emitted + count in
    turns (take count (drop s.packet_emitted s.packet))
      (if end_at == target
        then record s { packet = []; packet_emitted = 0; packet_target = none }
        else record s { packet_emitted = end_at })
      inner

abbrev pub filled_of : Option ℕ → ℕ → PacketStream → List Reply → Turn
filled_of none remaining s inner = parse_header s inner
filled_of (some target) remaining s inner = emit remaining target s inner

-- After as many bytes as are wanted.
unfoldable pub filled_turn : ℕ → PacketStream → List Reply → Turn
unfolding parse_header emit
filled_turn remaining s inner = filled_of s.packet_target remaining s inner

abbrev pub is_none : Option ℕ → Bool
is_none none = true
is_none (some a) = false

-- After a poll of the inner stream.
unfoldable pub after_read : ℕ → Bool → PacketStream → InnerPoll × List Reply → Turn
unfolding filled_turn
after_read remaining written s (inner_pending, inner) =
    ends (if written then ready else pending) s inner
after_read remaining written s (inner_error, inner) =
    ends inner_failed (record s { failed = true }) inner
after_read remaining written s (inner_data [], inner) =
    if (length s.packet == 0) && is_none s.packet_target
    then ends ready s inner
    else ends unexpected_eof (record s { failed = true }) inner
after_read remaining written s (inner_data (b ∷ bs), inner) =
    let more = record s { packet = s.packet ++ (b ∷ bs) } in
    if ltb (length more.packet) (target_or_header s.packet_target)
    then turns [] more inner
    else filled_turn remaining more inner

unfoldable pub read_turn : ℕ → Bool → PacketStream → List Reply → Turn
unfolding after_read filled_turn read_inner
read_turn zero written s inner = ends ready s inner
read_turn (suc remaining) written s inner =
    let target = target_or_header s.packet_target in
    if ltb (length s.packet) target
    then after_read (suc remaining) written s (read_inner (target - length s.packet) inner)
    else filled_turn (suc remaining) s inner

abbrev pub Read : Type 0
Read = ReadPoll × List ℕ × PacketStream × List Reply

abbrev pub some_bytes : List ℕ → Bool
some_bytes [] = false
some_bytes (b ∷ bs) = true

-- The loop, with room for `remaining` bytes, of which some were `written` before.
unfoldable pub read_loop : ℕ → ℕ → Bool → PacketStream → List Reply → Read
unfolding read_turn
read_loop zero remaining written s inner = (out_of_fuel, [], s, inner)
read_loop (suc fuel) remaining written s inner = elim (read_turn remaining written s inner) [
  | ends poll s' inner' ↦ (poll, [], s', inner')
  | turns out s' inner' ↦
      (let rest = read_loop fuel (remaining - length out) (written || some_bytes out) s' inner' in
        (rest.0, out ++ rest.1, rest.2, rest.3))
]

-- How much the inner stream has to say.
unfoldable pub size : List Reply → ℕ
size [] = 0
size (arrives bs ∷ rest) = suc (length bs) + size rest
size (waits ∷ rest) = suc (size rest)
size (breaks ∷ rest) = suc (size rest)

abbrev pub read_fuel : ℕ → List Reply → ℕ
read_fuel room inner = 2 * room + size inner + 2

-- A stream that has failed reads as ended.
abbrev pub read_unless_failed : Bool → ℕ → PacketStream → List Reply → Read
read_unless_failed true room s inner = (ready, [], s, inner)
read_unless_failed false room s inner = read_loop (read_fuel room inner) room false s inner

-- `poll_read`, with room for so many bytes.
unfoldable pub poll_read : ℕ → PacketStream → List Reply → Read
unfolding read_loop size
poll_read room s inner = read_unless_failed s.failed room s inner
