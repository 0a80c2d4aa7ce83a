-- ===== src/Telnet/Frames/Items.antt =====
-- src/telnet.rs, `TelnetFrameBuffer`: how the stream is cut into chunks does not matter. The
-- specification reads a stream item by item: one byte of text, or one whole command.
use ax_ssh.Prelude.{
  ℕ, zero, suc, ◌+◌, ◌≤◌, ◌≡◌, refl, Option, none, some, List, [], ◌∷◌, ◌++◌, arith, length,
  length-append, subst, take, drop, Option-cases, ◌==◌, sym, inl, inr, map, if◌then◌else◌,
}
use ax_ssh.Telnet.{Bytes, OpCommand}
use ax_ssh.Telnet.Frames.{
  InboundFrame, parser, literal_data, subnegotiation_scan, command_frame, next_frame,
}
use ax_ssh.Telnet.Frames.Lossless.{subnegotiation_scan-le}

pub data Item : Type 0 where
  text : ℕ → Item
  unit : InboundFrame → Item

module _ (op : OpCommand) where
  -- A frame's items: a text run is one item for each byte.
  abbrev pub items : InboundFrame → List Item
  items (literal_data bs) = unit (literal_data bs) ∷ []
  items (parser []) = []
  items (parser (a ∷ bs)) =
      if a == op.iac then unit (parser (a ∷ bs)) ∷ [] else text a ∷ map text bs

  abbrev pub items_all : List InboundFrame → List Item
  items_all [] = []
  items_all (f ∷ fs) = items f ++ items_all fs

  abbrev pub unit_item : Option (InboundFrame × Bytes) → Option (Item × Bytes)
  unit_item none = none
  unit_item (some (f, rest)) = some (unit f, rest)

  unfoldable pub next_item : Bytes → Option (Item × Bytes)
  next_item [] = none
  next_item (a ∷ bs) = if a == op.iac then unit_item (next_frame op (a ∷ bs)) else some (text a, bs)

  -- The items of a stream, up to the bytes `out` that hold no item.
  pub data Drains (out : Bytes) : Bytes → List Item → Type 0 where
    stop : {bs : Bytes} → bs ≡ out → next_item bs ≡ none → Drains out bs []
    more :
        {bs rest : Bytes} {i : Item} {is : List Item}
        → next_item bs ≡ some (i, rest)
        → Drains out rest is
        → Drains out bs (i ∷ is)

  subnegotiation_scan_stable :
      (bs ys : Bytes) (i n : ℕ)
      → subnegotiation_scan op i bs ≡ some n
      → subnegotiation_scan op i (bs ++ ys) ≡ some n
  unfolding subnegotiation_scan
  subnegotiation_scan_stable [] ys i n h = cc
  subnegotiation_scan_stable (a ∷ []) ys i n h = cc
  subnegotiation_scan_stable (a ∷ b ∷ rest) ys i n h = ground (
    arith,
    subnegotiation_scan_stable (b ∷ rest) ys (i + 1) n,
    subnegotiation_scan_stable rest ys (i + 2) n,
  )

  take_stable : (n : ℕ) (bs ys : Bytes) → n ≤ length bs → take n (bs ++ ys) ≡ take n bs
  take_stable zero bs ys h = refl
  take_stable (suc n) [] ys h = absurd (omega arith)
  take_stable (suc n) (b ∷ bs) ys h = rw (take_stable n bs ys (omega arith))

  drop_stable : (n : ℕ) (bs ys : Bytes) → n ≤ length bs → drop n (bs ++ ys) ≡ drop n bs ++ ys
  drop_stable zero bs ys h = refl
  drop_stable (suc n) [] ys h = absurd (omega arith)
  drop_stable (suc n) (b ∷ bs) ys h = drop_stable n bs ys (omega arith)

  command_frame_stable :
      (b : ℕ) (rest ys : Bytes) (f : InboundFrame) (after : Bytes)
      → command_frame op b (op.iac ∷ b ∷ rest) ≡ some (f, after)
      → command_frame op b (op.iac ∷ b ∷ rest ++ ys) ≡ some (f, after ++ ys)
  unfolding command_frame
  command_frame_stable b rest ys f after h = elim (Option-cases (subnegotiation_scan op 2 rest)) [
    | inl none_found ↦ ground (
      arith,
      take_stable 3 (op.iac ∷ b ∷ rest) ys,
      drop_stable 3 (op.iac ∷ b ∷ rest) ys,
      length-append rest ys,
    )
    | inr (n, found) ↦ ground (
      arith,
      subnegotiation_scan-le op rest 2 n,
      subnegotiation_scan_stable rest ys 2 n,
      take_stable n (op.iac ∷ b ∷ rest) ys,
      drop_stable n (op.iac ∷ b ∷ rest) ys,
      take_stable 3 (op.iac ∷ b ∷ rest) ys,
      drop_stable 3 (op.iac ∷ b ∷ rest) ys,
      length-append rest ys,
    )
  ]

  -- More input leaves the first item as it was.
  next_item_stable :
      (bs ys : Bytes) (i : Item) (rest : Bytes)
      → next_item bs ≡ some (i, rest)
      → next_item (bs ++ ys) ≡ some (i, rest ++ ys)
  unfolding next_item next_frame
  next_item_stable [] ys i rest h = cc
  next_item_stable (a ∷ []) ys i rest h = ground arith
  next_item_stable (a ∷ b ∷ bs) ys i rest h =
      elim (Option-cases (command_frame op b (op.iac ∷ b ∷ bs))) [
        | inl stuck ↦ ground arith
        | inr ((f, after), cut) ↦ ground (arith, command_frame_stable b bs ys f after)
      ]

  -- Input in two parts gives the items of the first, then those of the second behind what waits.
  pub Drains-append :
      {mid out : Bytes} {bs : Bytes} {is js : List Item} (ys : Bytes)
      → Drains mid bs is
      → Drains out (mid ++ ys) js
      → Drains out (bs ++ ys) (is ++ js)
  Drains-append ys (stop e h) d = rw e d
  Drains-append ys (more {bs} {rest} {i} h t) d =
      more (next_item_stable bs ys i rest h) (Drains-append ys t d)

  same_item :
      (bs : Bytes) {rest rest' : Bytes} {i i' : Item}
      → next_item bs ≡ some (i, rest)
      → next_item bs ≡ some (i', rest')
      → (i ≡ i') × (rest ≡ rest')
  same_item bs h h' = ground arith

  -- A stream has one reading.
  pub Drains-unique :
      {out out' bs : Bytes} {is js : List Item}
      → Drains out bs is
      → Drains out' bs js
      → (is ≡ js) × (out ≡ out')
  Drains-unique (stop e h) (stop e' h') = (refl, cc)
  Drains-unique (stop e h) (more h' t') = cc
  Drains-unique (more h t) (stop e' h') = cc
  Drains-unique {out' = out'} (more {rest} {i} h t)
        (more {rest = rest'} {i = i'} {is = is'} h' t') =
      let same = same_item _ h h' in
      let tails = Drains-unique t (subst (λ r. Drains out' r is') (sym same.1) t') in
      (cc (same.0, tails.0), tails.1)
