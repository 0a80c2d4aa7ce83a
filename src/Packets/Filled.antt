-- ===== src/Packets/Filled.antt =====
-- src/sftp.rs, PacketLimitedStream: what a turn does once the bytes that it wants are
-- there.
use ax_ssh.Prelude.{
  ℕ, suc, ◌+◌, ◌-◌, min, true, ◌||◌, ◌≡◌, ◌⊎◌, refl, ap, sym, ◌∙◌, subst, inl, inr, Option, none,
  some, List, [], ◌∷◌, ◌++◌, append-nil, length, take, arith, Bool-cases, ◌==◌, ltb,
}
use ax_ssh.Packets.{
  max_packet_bytes, Reply, PacketStream, from_be_bytes, Turn, ends, turns, parse_header, emit,
  filled_turn, filled_of,
}
use ax_ssh.Packets.Moves.{bytes_of, IsAt, IsStream, Moves, take-all, take-more}

-- What a turn that ends the poll, or goes on, has done.
abbrev pub TurnOk : PacketStream → List Reply → Turn → Type 0
TurnOk s inner (ends poll t later) =
    Moves s inner [] t later × (IsStream t ⊎ ((t.failed ≡ true) × (t.packet_emitted ≡ 0)))
TurnOk s inner (turns out t later) = Moves s inner out t later × IsStream t

-- A move that hands out nothing, to a stream of the same packet.
pub same_packet :
    (s t : PacketStream) (inner : List Reply)
    → t.packet ≡ s.packet
    → t.packet_emitted ≡ s.packet_emitted
    → Moves s inner [] t inner
same_packet s t inner h k = record {
  packets = [];
  are_packets = tt;
  taken = ap (λ l. l ++ bytes_of inner) (sym h);
  handed_out = append-nil (take s.packet_emitted s.packet) ∙ (λ i. take (sym k i) (sym h i));
}

parse_header-TurnOk :
    (s : PacketStream) (inner : List Reply)
    → s.packet_emitted ≡ 0
    → length s.packet ≡ 4
    → TurnOk s inner (parse_header s inner)
unfolding parse_header
parse_header-TurnOk s inner e h =
    elim (Bool-cases
      ((from_be_bytes s.packet == 0) || ltb max_packet_bytes (from_be_bytes s.packet))) [
        | inl bad ↦
            rw (bad) (same_packet s (record s { failed = true }) inner refl refl, inr (refl, e))
        | inr allowed ↦ rw (allowed) (
          same_packet s (record s { packet_target = some (4 + from_be_bytes s.packet) }) inner refl
              refl,
          (
            refl,
            ground arith,
            ground arith,
            omega (arith, h),
            omega (arith, h),
            omega (arith, e),
            λ k. e,
          ),
        )
      ]

emit-TurnOk :
    (room target : ℕ) (s : PacketStream) (inner : List Reply)
    → IsAt (some target) s.packet_emitted s.packet
    → s.packet_target ≡ some target
    → length s.packet ≡ target
    → TurnOk s inner (emit (suc room) target s inner)
unfolding emit
emit-TurnOk room target s inner v at whole =
    let count = min (suc room) (target - s.packet_emitted) in
    elim (Bool-cases (s.packet_emitted + count == target)) [
      | inl done ↦ rw (done) (
        record {
          packets = s.packet ∷ [];
          are_packets =
              (record { whole = omega (arith, whole, v.0); some_payload = v.1; bounded = v.2 }, tt);
          taken = ap (λ l. l ++ bytes_of inner) (sym (append-nil s.packet));
          handed_out =
              take-more s.packet_emitted count s.packet
              ∙ take-all (s.packet_emitted + count) s.packet (ground arith)
              ∙ sym (append-nil s.packet)
              ∙ sym (append-nil (s.packet ++ []));
        },
        (refl, omega arith),
      )
      | inr more ↦ rw (more) (
        record {
          packets = [];
          are_packets = tt;
          taken = refl;
          handed_out = take-more s.packet_emitted count s.packet;
        },
        subst (λ o. IsAt o (s.packet_emitted + count) s.packet) (sym at)
            (v.0, v.1, v.2, v.3, v.4, ground arith, λ k. omega (arith, k, whole)),
      )
    ]

pub filled_turn-TurnOk :
    (room : ℕ) (s : PacketStream) (inner : List Reply) (o : Option ℕ)
    → s.packet_target ≡ o
    → (o ≡ none → (s.packet_emitted ≡ 0) × (length s.packet ≡ 4))
    → ((target : ℕ)
        → o ≡ some target
        → IsAt (some target) s.packet_emitted s.packet × (length s.packet ≡ target))
    → TurnOk s inner (filled_turn (suc room) s inner)
unfolding filled_turn
filled_turn-TurnOk room s inner none at h k =
    let v = h refl in
    subst (λ o. TurnOk s inner (filled_of o (suc room) s inner)) (sym at)
      (parse_header-TurnOk s inner v.0 v.1)
filled_turn-TurnOk room s inner (some target) at h k =
    let v = k target refl in
    subst (λ o. TurnOk s inner (filled_of o (suc room) s inner)) (sym at)
      (emit-TurnOk room target s inner v.0 at v.1)
