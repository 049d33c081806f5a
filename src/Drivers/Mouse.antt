-- ===== src/Drivers/Mouse.antt =====
-- MouseDriver of source/src/drivers/mouse.cpp. The bytes that the ports give are arguments.
pub mod Activation
use implementing_os_and_syst.Base.{
  ℕ, zero, suc, ◌+◌, ◌-◌, ◌/◌, ◌%◌, ◌^◌, ◌≤◌, ◌<◌, ◌≡◌, refl, ap, subst, ◌∙◌, Bool, true, List, [],
  ◌∷◌, ◌++◌, ltb, ◌==◌, if◌then◌else◌, arith, ◌&&◌, Bool-cases, ℕ_discrete, inl, inr,
}

-- `offset`, `buttons` and the three bytes of `buffer`.
pub record MouseDriver : Type 0 where
  pub offset : ℕ
  pub buttons : ℕ
  pub buffer : ℕ → ℕ

-- The calls of the handler; an `int` is its 32-bit pattern.
pub data MouseEvent : Type 0 where
  mouse_move : ℕ → ℕ → MouseEvent
  mouse_up : ℕ → MouseEvent
  mouse_down : ℕ → MouseEvent

-- What Activate does to the fields.
abbrev pub activate : MouseDriver → MouseDriver
activate d = record d { offset = 0; buttons = 0 }

-- `b & (0x1 << i)`, as the bit.
abbrev pub bit : ℕ → ℕ → ℕ
bit b i = b / 2 ^ i % 2

-- `(int8_t)v`, as an `int`.
abbrev pub int8 : ℕ → ℕ
int8 v = if ltb v 128 then v else 2 ^ 32 - 256 + v

-- The loop over the three buttons, `k` of them from `i` on.
unfoldable pub changes : ℕ → ℕ → ℕ → ℕ → List MouseEvent
changes zero i packet buttons = []
changes (suc k) i packet buttons =
    let rest = changes k (i + 1) packet buttons in
    if bit packet i == bit buttons i
    then rest
    else (if bit buttons i == 0 then mouse_down (i + 1) else mouse_up (i + 1)) ∷ rest

-- The move of a packet, when one of its two bytes is not zero.
abbrev pub moves : ℕ → ℕ → List MouseEvent
moves x y = if x == 0 && y == 0 then [] else mouse_move (int8 x) ((2 ^ 32 - int8 y) % 2 ^ 32) ∷ []

abbrev pub set_byte : ℕ → ℕ → (ℕ → ℕ) → ℕ → ℕ
set_byte i v buffer j = if i == j then v else buffer j

-- HandleInterrupt, for the byte of the command port and that of the data port; it returns its
-- argument `esp` whatever it does.
unfoldable pub handle_interrupt : Bool → ℕ → ℕ → MouseDriver → MouseDriver × List MouseEvent
handle_interrupt has_handler status byte d =
    if status / 0x20 % 2 == 0
    then (d, [])
    else (let b = set_byte d.offset byte d.buffer in
        if has_handler
        then (let o = (d.offset + 1) % 3 in
            if o == 0
            then (
              record { offset = o; buttons = b 0; buffer = b },
              moves (b 1) (b 2) ++ changes 3 0 (b 0) d.buttons,
            )
            else (record { offset = o; buttons = d.buttons; buffer = b }, []))
        else (record d { buffer = b }, []))

-- The three interrupts of a packet, and of a list of packets.
unfoldable pub handle_packet : ℕ → ℕ × ℕ × ℕ → MouseDriver → MouseDriver × List MouseEvent
handle_packet status p d =
    let s1 = handle_interrupt true status p.0 d in
    let s2 = handle_interrupt true status p.1 s1.0 in
    let s3 = handle_interrupt true status p.2 s2.0 in (s3.0, s1.1 ++ s2.1 ++ s3.1)

unfoldable pub handle_packets : ℕ → List (ℕ × ℕ × ℕ) → MouseDriver → MouseDriver × List MouseEvent
handle_packets status [] d = (d, [])
handle_packets status (p ∷ ps) d =
    let s1 = handle_packet status p d in
    let s2 = handle_packets status ps s1.0 in (s2.0, s1.1 ++ s2.1)

-- The buttons that are held after the events, 1 for a button that is, by the numbers 1 to 3.
pub held : List MouseEvent → (ℕ → ℕ) → ℕ → ℕ
held [] h = h
held (mouse_move x y ∷ es) h = held es h
held (mouse_up b ∷ es) h = held es (set_byte b 0 h)
held (mouse_down b ∷ es) h = held es (set_byte b 1 h)

-- No button is reported down that is held, or up that is not.
pub IsOrderly : List MouseEvent → (ℕ → ℕ) → Type 0
IsOrderly [] h = Unit
IsOrderly (mouse_move x y ∷ es) h = IsOrderly es h
IsOrderly (mouse_up b ∷ es) h = (h b ≡ 1) × IsOrderly es (set_byte b 0 h)
IsOrderly (mouse_down b ∷ es) h = (h b ≡ 0) × IsOrderly es (set_byte b 1 h)

-- `h` is what the byte `b` of a packet says of the three buttons.
abbrev pub Agrees : (ℕ → ℕ) → ℕ → Type 0
Agrees h b = (i : ℕ) → i < 3 → h (i + 1) ≡ bit b i

-- A button's bit joins the ones that agree already.
agree_below :
    (i v packet : ℕ) (h : ℕ → ℕ)
    → v ≡ bit packet i
    → ((j : ℕ) → j < i → h (j + 1) ≡ bit packet j)
    → (j : ℕ) → j < i + 1
    → set_byte (i + 1) v h (j + 1) ≡ bit packet j
agree_below i v packet h e a j u = elim (ℕ_discrete j i) [
  | yes q ↦ rw q (ground (arith, e))
  | no o ↦ ground (arith, a j (omega arith))
]

agree_above :
    (i v buttons : ℕ) (h : ℕ → ℕ)
    → ((j : ℕ) → i ≤ j → j < 3 → h (j + 1) ≡ bit buttons j)
    → (j : ℕ) → i + 1 ≤ j
    → j < 3
    → set_byte (i + 1) v h (j + 1) ≡ bit buttons j
agree_above i v buttons h b j l u = ground (arith, b j (omega arith) u)

bit_small : (b i : ℕ) → bit b i < 2
bit_small b i = omega arith

changes_lem :
    (k i packet buttons : ℕ) (h : ℕ → ℕ)
    → i + k ≡ 3
    → ((j : ℕ) → j < i → h (j + 1) ≡ bit packet j)
    → ((j : ℕ) → i ≤ j → j < 3 → h (j + 1) ≡ bit buttons j)
    → Agrees (held (changes k i packet buttons) h) packet × IsOrderly (changes k i packet buttons) h
unfolding changes held IsOrderly
changes_lem zero i packet buttons h e a b = (λ j u. a j (omega arith), tt)
changes_lem (suc k) i packet buttons h e a b = elim (Bool-cases (bit packet i == bit buttons i)) [
  | inl t ↦ rw t (
      changes_lem k (i + 1) packet buttons h (omega arith)
        (λ j u. elim (ℕ_discrete j i) [
          | yes q ↦ rw q (ground (arith, t, b i (omega arith) (omega arith)))
          | no o ↦ a j (omega arith)
        ])
        (λ j l u. b j (omega arith) u))
  | inr t ↦ rw t (elim (Bool-cases (bit buttons i == 0)) [
    | inl z ↦ rw z (
        let ih =
          changes_lem k (i + 1) packet buttons (set_byte (i + 1) 1 h) (omega arith)
            (agree_below i 1 packet h
              (ground (arith, t, z, bit_small packet i, bit_small buttons i)) a)
            (agree_above i 1 buttons h b) in
        (ih.0, (ground (arith, z, b i (omega arith) (omega arith), bit_small buttons i), ih.1)))
    | inr z ↦ rw z (
        let ih =
          changes_lem k (i + 1) packet buttons (set_byte (i + 1) 0 h) (omega arith)
            (agree_below i 0 packet h
              (ground (arith, t, z, bit_small packet i, bit_small buttons i)) a)
            (agree_above i 0 buttons h b) in
        (ih.0, (ground (arith, z, b i (omega arith) (omega arith), bit_small buttons i), ih.1)))
  ])
]

-- The three interrupts of a packet, when the controller says that the bytes are the mouse's, report
-- the move when one of its two bytes is not zero, then the buttons that changed, remember
-- the buttons, and leave the driver ready for the next packet.
pub handle_packet_lem :
    (status : ℕ) (p : ℕ × ℕ × ℕ) (d : MouseDriver)
    → status / 0x20 % 2 ≡ 1
    → d.offset ≡ 0
    → ((handle_packet status p d).0.offset ≡ 0)
      × ((handle_packet status p d).0.buttons ≡ p.0)
      × ((handle_packet status p d).1 ≡ moves p.1 p.2 ++ changes 3 0 p.0 d.buttons)
unfolding handle_packet handle_interrupt
handle_packet_lem status p d h e = rw (h, e) (refl, refl, refl)

held-moves :
    (x y : ℕ) (es : List MouseEvent) (h : ℕ → ℕ)
    → (held (moves x y ++ es) h ≡ held es h) × (IsOrderly es h → IsOrderly (moves x y ++ es) h)
unfolding held IsOrderly
held-moves x y es h = elim (Bool-cases (x == 0 && y == 0)) [
  | inl t ↦ rw t (refl, λ o. o)
  | inr t ↦ rw t (refl, λ o. o)
]

held-append :
    (es fs : List MouseEvent) (h : ℕ → ℕ)
    → (held (es ++ fs) h ≡ held fs (held es h))
      × (IsOrderly es h → IsOrderly fs (held es h) → IsOrderly (es ++ fs) h)
unfolding held IsOrderly
held-append [] fs h = (refl, λ o q. q)
held-append (mouse_move x y ∷ es) fs h = held-append es fs h
held-append (mouse_up b ∷ es) fs h =
    let r = held-append es fs (set_byte b 0 h) in (r.0, λ o q. (o.0, r.1 o.1 q))
held-append (mouse_down b ∷ es) fs h =
    let r = held-append es fs (set_byte b 1 h) in (r.0, λ o q. (o.0, r.1 o.1 q))

handle_packet-Agrees :
    (status : ℕ) (p : ℕ × ℕ × ℕ) (d : MouseDriver) (h : ℕ → ℕ)
    → status / 0x20 % 2 ≡ 1
    → d.offset ≡ 0
    → Agrees h d.buttons
    → Agrees (held (handle_packet status p d).1 h) (handle_packet status p d).0.buttons
      × IsOrderly (handle_packet status p d).1 h
handle_packet-Agrees status p d h s e a =
    let r = handle_packet_lem status p d s e in
    let c = changes_lem 3 0 p.0 d.buttons h refl (λ j u. absurd (omega arith)) (λ j l u. a j u) in
    let m = held-moves p.1 p.2 (changes 3 0 p.0 d.buttons) h in rw (r.1, r.2, m.0) (c.0, m.1 c.1)

-- The first byte of the last packet, which names the buttons that are held; `b` where there was no packet.
abbrev pub last_buttons : ℕ → List (ℕ × ℕ × ℕ) → ℕ
last_buttons b [] = b
last_buttons b (p ∷ ps) = last_buttons p.0 ps

-- Whatever packets arrive, the handler that follows the reported events holds the buttons that
-- the last packet names, and no button is reported down while it is held, or up while it is not. The
-- driver is ready for the next packet, and remembers the first byte of the last one.
pub handle_packets_lem :
    (status : ℕ) (ps : List (ℕ × ℕ × ℕ)) (d : MouseDriver) (h : ℕ → ℕ)
    → status / 0x20 % 2 ≡ 1
    → d.offset ≡ 0
    → Agrees h d.buttons
    → ((handle_packets status ps d).0.offset ≡ 0)
      × ((handle_packets status ps d).0.buttons ≡ last_buttons d.buttons ps)
      × Agrees (held (handle_packets status ps d).1 h) (last_buttons d.buttons ps)
      × IsOrderly (handle_packets status ps d).1 h
unfolding handle_packets held IsOrderly
handle_packets_lem status [] d h s e a = (e, refl, a, tt)
handle_packets_lem status (p ∷ ps) d h s e a =
    let r = handle_packet_lem status p d s e in
    let q = handle_packet-Agrees status p d h s e a in
    let es = (handle_packet status p d).1 in
    let d' = (handle_packet status p d).0 in
    let ih = handle_packets_lem status ps d' (held es h) s r.0 q.0 in
    let m = held-append es (handle_packets status ps d').1 h in
    let last = ap (λ b. last_buttons b ps) r.1 in
    rw m.0 (
      ih.0,
      ih.1 ∙ last,
      subst (Agrees (held (handle_packets status ps d').1 (held es h))) last ih.2,
      m.1 q.1 ih.3,
    )
