-- ===== src/Packets/Turns.antt =====
-- src/sftp.rs, PacketLimitedStream: what a turn of the loop does.
use ax_ssh.Prelude.{
  ℕ, zero, suc, ◌-◌, ◌≤◌, ◌<◌, Bool, true, ◌&&◌, ◌≡◌, refl, ap, sym, ◌∙◌, subst, inl, inr, Option,
  none, some, List, [], ◌∷◌, ◌++◌, append-nil, append_assoc, length, length-append, take, arith,
  Bool-cases, ◌==◌, ltb,
}
use ax_ssh.Packets.{
  Reply, InnerPoll, inner_data, inner_pending, inner_error, read_inner, PacketStream,
  target_or_header, Turn, ends, turns, filled_turn, is_none, after_read, read_turn,
}
use ax_ssh.Packets.Moves.{
  bytes_of, IsAt, IsStream, Moves, stays, Moves-trans, got, read_inner-bytes, read_inner-room,
  from_be_bytes-append, take-nothing,
}
use ax_ssh.Packets.Filled.{TurnOk, same_packet, filled_turn-TurnOk}

-- Bytes that are put behind those of the packet.
read_more :
    (s : PacketStream) (inner later : List Reply) (bs : List ℕ)
    → s.packet_emitted ≡ 0
    → bytes_of inner ≡ bs ++ bytes_of later
    → Moves s inner [] (record s { packet = s.packet ++ bs }) later
read_more s inner later bs e h = record {
  packets = [];
  are_packets = tt;
  taken = ap (λ l. s.packet ++ l) h ∙ sym (append_assoc s.packet bs (bytes_of later));
  handed_out =
      append-nil (take s.packet_emitted s.packet)
      ∙ take-nothing s.packet_emitted s.packet e
      ∙ sym (take-nothing s.packet_emitted (s.packet ++ bs) e);
}

grown_some :
    (t e : ℕ) (p bs : List ℕ)
    → IsAt (some t) e p
    → length p < t
    → length bs ≤ t - length p
    → IsAt (some t) e (p ++ bs)
grown_some t e p bs v h k =
    let sizes = length-append p bs in
    let same = from_be_bytes-append p bs v.3 in
    (
      omega (arith, v.0, same),
      omega (arith, v.1, same),
      omega (arith, v.2, same),
      omega (arith, v.3, sizes),
      omega (arith, h, k, sizes),
      v.5,
      λ l. v.6 h,
    )

-- A packet with more bytes, no more than it wants: it still waits, or it has them all.
abbrev IsGrown : Option ℕ → ℕ → List ℕ → Type 0
IsGrown o e p =
    (length p < target_or_header o → IsAt o e p)
    × (target_or_header o ≤ length p → o ≡ none → (e ≡ 0) × (length p ≡ 4))
    × (target_or_header o ≤ length p → (t : ℕ) → o ≡ some t → IsAt (some t) e p × (length p ≡ t))

pub grown :
    (o : Option ℕ) (e : ℕ) (p bs : List ℕ)
    → IsAt o e p
    → length p < target_or_header o
    → length bs ≤ target_or_header o - length p
    → (e ≡ 0) × IsGrown o e (p ++ bs)
grown none e p bs v h k = (
  v.0,
  (λ l. (v.0, l), λ l q. (v.0, omega (arith, l, k, h, length-append p bs)), λ l t q. ground arith),
)
grown (some t) e p bs v h k =
    let w = grown_some t e p bs v h k in
    (
      v.6 h,
      (
        λ l. w,
        λ l q. ground arith,
        λ l u q.
            let same : t ≡ u = ground (arith, q) in
            subst (λ t. IsAt (some t) e (p ++ bs) × (length (p ++ bs) ≡ t)) same
              (w, omega (arith, l, w.4)),
      ),
    )

-- A poll of the inner stream before the turn.
pub TurnOk-after :
    (s t : PacketStream) (i j : List Reply) (turn : Turn)
    → Moves s i [] t j
    → TurnOk t j turn
    → TurnOk s i turn
TurnOk-after s t i j (ends poll u k) m v = (Moves-trans m v.0, v.1)
TurnOk-after s t i j (turns out u k) m v = (Moves-trans m v.0, v.1)

grown_turn :
    (room : ℕ) (written : Bool) (s : PacketStream) (inner later : List Reply) (b : ℕ) (bs : List ℕ)
    → IsStream s
    → length s.packet < target_or_header s.packet_target
    → length (b ∷ bs) ≤ target_or_header s.packet_target - length s.packet
    → bytes_of inner ≡ (b ∷ bs) ++ bytes_of later
    → TurnOk s inner (after_read (suc room) written s (inner_data (b ∷ bs), later))
unfolding after_read
grown_turn room written s inner later b bs v h k e =
    let g = grown s.packet_target s.packet_emitted s.packet (b ∷ bs) v h k in
    let more : PacketStream = record s { packet = s.packet ++ (b ∷ bs) } in
    let m = read_more s inner later (b ∷ bs) g.0 e in
    elim (Bool-cases (ltb (length (s.packet ++ (b ∷ bs))) (target_or_header s.packet_target))) [
      | inl waits_on ↦ rw (waits_on) (m, g.1.0 (ground arith))
      | inr full ↦ rw (full) (
          TurnOk-after s more inner later (filled_turn (suc room) more later) m (
            filled_turn-TurnOk room more later s.packet_target refl (g.1.1 (ground arith))
              (g.1.2 (ground arith))))
    ]

-- Nothing is handed out of a packet that is not whole.
none_out : (o : Option ℕ) (e : ℕ) (p : List ℕ) → IsAt o e p → length p < target_or_header o → e ≡ 0
none_out none e p v h = v.0
none_out (some t) e p v h = v.6 h

-- A poll of the inner stream that gives no bytes.
unread :
    (s : PacketStream) (inner later : List Reply)
    → bytes_of inner ≡ bytes_of later
    → Moves s inner [] s later
unread s inner later h = record {
  packets = [];
  are_packets = tt;
  taken = ap (λ l. s.packet ++ l) h;
  handed_out = append-nil (take s.packet_emitted s.packet);
}

after_read-TurnOk :
    (room : ℕ) (written : Bool) (s : PacketStream) (inner : List Reply) (r : InnerPoll × List Reply)
    → IsStream s
    → length s.packet < target_or_header s.packet_target
    → length (got r.0) ≤ target_or_header s.packet_target - length s.packet
    → bytes_of inner ≡ got r.0 ++ bytes_of r.1
    → TurnOk s inner (after_read (suc room) written s r)
unfolding after_read
after_read-TurnOk room written s inner (inner_pending, later) v h k e =
    (unread s inner later e, inl v)
after_read-TurnOk room written s inner (inner_error, later) v h k e = (
  Moves-trans (unread s inner later e) (same_packet s (record s { failed = true }) later refl refl),
  inr (refl, none_out s.packet_target s.packet_emitted s.packet v h),
)
after_read-TurnOk room written s inner (inner_data [], later) v h k e =
    elim (Bool-cases ((length s.packet == 0) && is_none s.packet_target)) [
      | inl at_end ↦ rw (at_end) (unread s inner later e, inl v)
      | inr inside ↦ rw (inside) (
        Moves-trans (unread s inner later e)
            (same_packet s (record s { failed = true }) later refl refl),
        inr (refl, none_out s.packet_target s.packet_emitted s.packet v h),
      )
    ]
after_read-TurnOk room written s inner (inner_data (b ∷ bs), later) v h k e =
    grown_turn room written s inner later b bs v h k e

-- A packet with as many bytes as are wanted.
pub full_some :
    (o : Option ℕ) (e : ℕ) (p : List ℕ)
    → IsAt o e p
    → target_or_header o ≤ length p
    → (t : ℕ) → o ≡ some t
    → IsAt (some t) e p × (length p ≡ t)
full_some none e p v h t q = ground arith
full_some (some u) e p v h t q =
    let same : u ≡ t = ground (arith, q) in
    subst (λ t. IsAt (some t) e p × (length p ≡ t)) same (v, omega (arith, h, v.4))

pub read_turn-TurnOk :
    (remaining : ℕ) (written : Bool) (s : PacketStream) (inner : List Reply)
    → IsStream s
    → TurnOk s inner (read_turn remaining written s inner)
unfolding read_turn
read_turn-TurnOk zero written s inner v = (stays s inner, inl v)
read_turn-TurnOk (suc room) written s inner v =
    let target = target_or_header s.packet_target in
    elim (Bool-cases (ltb (length s.packet) target)) [
      | inl fills ↦ rw (fills) (
          after_read-TurnOk room written s inner (read_inner (target - length s.packet) inner) v
            (ground arith) (read_inner-room (target - length s.packet) inner)
            (read_inner-bytes (target - length s.packet) inner))
      | inr full ↦ rw (full) (
          filled_turn-TurnOk room s inner s.packet_target refl
            (λ o.
              ground
                (arith, full_none s.packet_target s.packet_emitted s.packet v (ground arith) o))
            (full_some s.packet_target s.packet_emitted s.packet v (ground arith)))
    ]
  where
    full_none :
        (o : Option ℕ) (e : ℕ) (p : List ℕ)
        → IsAt o e p
        → target_or_header o ≤ length p
        → o ≡ none
        → ⊥
    full_none none e p v h q = omega (arith, v.1, h)
    full_none (some t) e p v h q = ground arith
