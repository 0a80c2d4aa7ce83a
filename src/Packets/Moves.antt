-- ===== src/Packets/Moves.antt =====
-- src/sftp.rs, PacketLimitedStream: packets, and what a piece of the work takes
-- in and hands out.
use ax_ssh.Prelude.{
  ℕ, zero, suc, ◌+◌, ◌≤◌, ◌<◌, ◌≡◌, refl, ap, sym, ◌∙◌, Option, none, some, List, [], ◌∷◌, ◌++◌,
  append-nil, append_assoc, length, length-take, take, drop, take-append-drop, arith,
}
use ax_ssh.Packets.{
  max_packet_bytes, Reply, arrives, waits, breaks, InnerPoll, inner_data, inner_pending,
  inner_error, left_over, read_inner, PacketStream, from_be_bytes,
}

-- The bytes that the inner stream still holds.
unfoldable pub bytes_of : List Reply → List ℕ
bytes_of [] = []
bytes_of (arrives bs ∷ rest) = bs ++ bytes_of rest
bytes_of (waits ∷ rest) = bytes_of rest
bytes_of (breaks ∷ rest) = bytes_of rest

-- A packet: four bytes with its length, which is allowed, and as many bytes.
pub record IsPacket (p : List ℕ) : Type 0 where
  pub whole : length p ≡ 4 + from_be_bytes p
  pub some_payload : 1 ≤ from_be_bytes p
  pub bounded : from_be_bytes p ≤ max_packet_bytes

abbrev pub ArePackets : List (List ℕ) → Type 0
ArePackets [] = Unit
ArePackets (p ∷ ps) = IsPacket p × ArePackets ps

abbrev pub flat : List (List ℕ) → List ℕ
flat [] = []
flat (p ∷ ps) = p ++ flat ps

-- Before the length is known fewer than four bytes are there; then the packet is as long as it says,
-- and none of it is handed out before all of it is there.
abbrev pub IsAt : Option ℕ → ℕ → List ℕ → Type 0
IsAt none emitted p = (emitted ≡ 0) × (length p < 4)
IsAt (some target) emitted p =
    (target ≡ 4 + from_be_bytes p)
    × (1 ≤ from_be_bytes p)
    × (from_be_bytes p ≤ max_packet_bytes)
    × (4 ≤ length p)
    × (length p ≤ target)
    × (emitted < target)
    × (length p < target → emitted ≡ 0)

abbrev pub IsStream : PacketStream → Type 0
IsStream s = IsAt s.packet_target s.packet_emitted s.packet

-- What a piece of the work takes in and hands out, in whole packets.
pub record Moves (s : PacketStream) (inner : List Reply) (out : List ℕ) (t : PacketStream)
    (later : List Reply) : Type 0 where
  pub packets : List (List ℕ)
  pub are_packets : ArePackets packets
  pub taken : s.packet ++ bytes_of inner ≡ flat packets ++ (t.packet ++ bytes_of later)
  pub handed_out :
      take s.packet_emitted s.packet ++ out ≡ flat packets ++ take t.packet_emitted t.packet

pub stays : (s : PacketStream) (inner : List Reply) → Moves s inner [] s inner
stays s inner = record {
  packets = [];
  are_packets = tt;
  taken = refl;
  handed_out = append-nil (take s.packet_emitted s.packet);
}

flat-append : (ps qs : List (List ℕ)) → flat (ps ++ qs) ≡ flat ps ++ flat qs
flat-append [] qs = refl
flat-append (p ∷ ps) qs =
    ap (λ l. p ++ l) (flat-append ps qs) ∙ sym (append_assoc p (flat ps) (flat qs))

ArePackets-append : (ps qs : List (List ℕ)) → ArePackets ps → ArePackets qs → ArePackets (ps ++ qs)
ArePackets-append [] qs v w = w
ArePackets-append (p ∷ ps) qs v w = (v.0, ArePackets-append ps qs v.1 w)

-- One piece of work after another.
pub Moves-trans :
    {s t u : PacketStream} {i j k : List Reply} {a b : List ℕ}
    → Moves s i a t j
    → Moves t j b u k
    → Moves s i (a ++ b) u k
Moves-trans {s} {t} {u} {i} {j} {k} {a} {b} m n = record {
  packets = m.packets ++ n.packets;
  are_packets = ArePackets-append m.packets n.packets m.are_packets n.are_packets;
  taken =
      m.taken
      ∙ ap (λ l. flat m.packets ++ l) n.taken
      ∙ sym (append_assoc (flat m.packets) (flat n.packets) (u.packet ++ bytes_of k))
      ∙ ap (λ l. l ++ (u.packet ++ bytes_of k)) (sym (flat-append m.packets n.packets));
  handed_out =
      sym (append_assoc (take s.packet_emitted s.packet) a b)
      ∙ ap (λ l. l ++ b) m.handed_out
      ∙ append_assoc (flat m.packets) (take t.packet_emitted t.packet) b
      ∙ ap (λ l. flat m.packets ++ l) n.handed_out
      ∙ sym (append_assoc (flat m.packets) (flat n.packets) (take u.packet_emitted u.packet))
      ∙ ap (λ l. l ++ take u.packet_emitted u.packet) (sym (flat-append m.packets n.packets));
}

left_over-bytes :
    (bs : List ℕ) (rest : List Reply) → bytes_of (left_over bs rest) ≡ bs ++ bytes_of rest
unfolding bytes_of
left_over-bytes [] rest = refl
left_over-bytes (b ∷ bs) rest = refl

abbrev pub got : InnerPoll → List ℕ
got (inner_data bs) = bs
got inner_pending = []
got inner_error = []

pub read_inner-bytes :
    (room : ℕ) (inner : List Reply)
    → bytes_of inner ≡ got (read_inner room inner).0 ++ bytes_of (read_inner room inner).1
unfolding read_inner bytes_of
read_inner-bytes room [] = refl
read_inner-bytes room (waits ∷ rest) = refl
read_inner-bytes room (breaks ∷ rest) = refl
read_inner-bytes room (arrives bs ∷ rest) =
    ap (λ l. l ++ bytes_of rest) (sym (take-append-drop room bs))
    ∙ append_assoc (take room bs) (drop room bs) (bytes_of rest)
    ∙ ap (λ l. take room bs ++ l) (sym (left_over-bytes (drop room bs) rest))

-- No poll gives more than there is room for.
pub read_inner-room :
    (room : ℕ) (inner : List Reply) → length (got (read_inner room inner).0) ≤ room
unfolding read_inner
read_inner-room room [] = omega arith
read_inner-room room (waits ∷ rest) = omega arith
read_inner-room room (breaks ∷ rest) = omega arith
read_inner-room room (arrives bs ∷ rest) = omega (arith, length-take room bs)

pub from_be_bytes-append :
    (p bs : List ℕ) → 4 ≤ length p → from_be_bytes (p ++ bs) ≡ from_be_bytes p
from_be_bytes-append [] bs h = omega arith
from_be_bytes-append (a ∷ []) bs h = omega arith
from_be_bytes-append (a ∷ b ∷ []) bs h = omega arith
from_be_bytes-append (a ∷ b ∷ c ∷ []) bs h = omega arith
from_be_bytes-append (a ∷ b ∷ c ∷ d ∷ p) bs h = refl

pub take-nothing : {A : Type 0} (n : ℕ) (xs : List A) → n ≡ 0 → take n xs ≡ []
take-nothing zero xs h = refl
take-nothing (suc n) xs h = ground arith

pub take-nil : {A : Type 0} (n : ℕ) → take {A = A} n [] ≡ []
take-nil zero = refl
take-nil (suc n) = refl

pub take-all : {A : Type 0} (n : ℕ) (xs : List A) → length xs ≤ n → take n xs ≡ xs
take-all zero [] h = refl
take-all zero (x ∷ xs) h = ground arith
take-all (suc n) [] h = refl
take-all (suc n) (x ∷ xs) h = ap (λ l. x ∷ l) (take-all n xs (omega arith))

-- The rest of what is taken.
pub take-more : (e c : ℕ) (p : List ℕ) → take e p ++ take c (drop e p) ≡ take (e + c) p
take-more zero c p = ap (λ n. take n p) (omega arith)
take-more (suc e) c [] = take-nil c ∙ sym (take-nil (suc e + c))
take-more (suc e) c (b ∷ p) =
    let moved : suc (e + c) ≡ suc e + c = omega arith in
    ap (λ l. b ∷ l) (take-more e c p) ∙ ap (λ n. take n (b ∷ p)) moved
