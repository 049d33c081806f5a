-- ===== src/Network/Receive.antt =====
-- The loop of Receive in source/src/drivers/amd_am79c973.cpp: what it prints, and that it ends.
use implementing_os_and_syst.Base.{
  ℕ, zero, suc, ◌+◌, ◌-◌, ◌%◌, ◌≤◌, ◌<◌, ◌≡◌, refl, ap, sym, ◌∙◌, inl, inr, some, true, false,
  Bool-cases, List, ◌∷◌, ◌++◌, append-nil, append_assoc, codes, ltb, ◌==◌, if◌then◌else◌, arith,
}
use implementing_os_and_syst.Kernel.Hex.{hex_text}
use implementing_os_and_syst.Ports.{and_then_lem, Device, Event, printed}
use implementing_os_and_syst.Ports.Trace.{shown}
use implementing_os_and_syst.Network.{
  Amd, BufferDescriptor, is_ours, is_frame, frame_size, print_bytes, print_frame, receive,
  receive_loop, next_buffer, handed_back, set_descr,
}
use implementing_os_and_syst.Network.Ring.{
  own_run, bytes_text, frame_text, frames_text, emptied, own_run-set_descr, frames_text-set_descr,
  own_run_most, emptied_lem,
}

print_bytes_lem :
    (k a : ℕ) (bytes : ℕ → ℕ) (d : Device) (t : List Event)
    → ((print_bytes bytes k a d t).0 ≡ some tt)
      × (shown (print_bytes bytes k a d t).1 ≡ shown t ++ bytes_text bytes k a)
unfolding print_bytes
print_bytes_lem zero a bytes d t = (refl, sym (append-nil (shown t)))
print_bytes_lem (suc k) a bytes d t =
    let p =
      print_bytes_lem k (a + 1) bytes d (printed (codes " ") ∷ printed (hex_text (bytes a)) ∷ t) in
    (
      p.0,
      p.1
          ∙ ap (λ xs. xs ++ bytes_text bytes k (a + 1))
              (append_assoc (shown t) (hex_text (bytes a)) (codes " "))
          ∙ append_assoc (shown t) (hex_text (bytes a) ++ codes " ") (bytes_text bytes k (a + 1)),
    )

print_frame_lem :
    (bytes : ℕ → ℕ) (b : BufferDescriptor) (d : Device) (t : List Event)
    → ((print_frame bytes b d t).0 ≡ some tt)
      × (shown (print_frame bytes b d t).1 ≡ shown t ++ frame_text bytes b)
print_frame_lem bytes b d t = elim (Bool-cases (is_frame b)) [
  | inl e ↦ rw e (print_bytes_lem (frame_size b) b.address bytes d t)
  | inr e ↦ rw e (refl, sym (append-nil (shown t)))
]

met : (fuel i : ℕ) → i < 8 → (fuel == 7) ≡ true → (i == ((i + 1) % 8 + fuel) % 8) ≡ true
met fuel i small e = ground arith

passed :
    (fuel i : ℕ) → fuel < 8 → i < 8 → (fuel == 7) ≡ false → (i == ((i + 1) % 8 + fuel) % 8) ≡ false
passed fuel i most small e = ground arith

-- Behind a buffer that goes back, the end of the run stays where it is.
run_ends :
    (fuel : ℕ) (c : Amd)
    → fuel < 8
    → c.current_recv_buffer < 8
    → (suc fuel < 8
        → is_ours (c.recv_buffer_descr ((c.current_recv_buffer + suc fuel) % 8)) ≡ false)
    → is_ours ((next_buffer c).recv_buffer_descr (((c.current_recv_buffer + 1) % 8 + fuel) % 8))
      ≡ false
run_ends fuel c most small ends = elim (Bool-cases (fuel == 7)) [
  | inl e ↦ rw (met fuel c.current_recv_buffer small e) refl
  | inr e ↦ rw (passed fuel c.current_recv_buffer most small e) (
      ap (λ i. is_ours (c.recv_buffer_descr i)) {x = ((c.current_recv_buffer + 1) % 8 + fuel) % 8}
        {y = (c.current_recv_buffer + suc fuel) % 8} (omega arith)
      ∙ ends (ground arith))
]

-- The loop empties the buffers of the run, given that `fuel` rounds reach its end.
receive_loop_lem :
    (fuel : ℕ) (c : Amd) (d : Device) (t : List Event)
    → fuel ≤ 8
    → c.current_recv_buffer < 8
    → (fuel < 8
        → own_run fuel c.recv_buffer_descr c.current_recv_buffer ≡ fuel
        → is_ours (c.recv_buffer_descr ((c.current_recv_buffer + fuel) % 8)) ≡ false)
    → let n = own_run fuel c.recv_buffer_descr c.current_recv_buffer in
      let r = receive_loop fuel c d t in
      (r.0 ≡ some (emptied n c))
      × (shown r.1 ≡ shown t ++ frames_text c.bytes c.recv_buffer_descr n c.current_recv_buffer)
unfolding receive_loop
receive_loop_lem zero c d t most small ends =
    rw
      (ap (λ i. is_ours (c.recv_buffer_descr i)) {x = c.current_recv_buffer}
          {y = (c.current_recv_buffer + 0) % 8} (omega arith)
        ∙ ends (omega arith) refl)
      (refl, sym (append-nil (shown t)))
receive_loop_lem (suc fuel) c d t most small ends =
    elim (Bool-cases (is_ours (c.recv_buffer_descr c.current_recv_buffer))) [
      | inl e ↦
          let i = c.current_recv_buffer in
          let b = handed_back (c.recv_buffer_descr i) in
          let w = print_frame c.bytes (c.recv_buffer_descr i) d t in
          let q = print_frame_lem c.bytes (c.recv_buffer_descr i) d t in
          let own =
            own_run-set_descr fuel i ((i + 1) % 8) b c.recv_buffer_descr (omega arith) small
              (omega arith) in
          let n = own_run fuel c.recv_buffer_descr ((i + 1) % 8) in
          let most_own = own_run_most fuel ((i + 1) % 8) c.recv_buffer_descr in
          let texts =
            frames_text-set_descr n i ((i + 1) % 8) c.bytes b c.recv_buffer_descr (omega arith)
              small (omega arith) in
          let ih =
            receive_loop_lem fuel (next_buffer c) d w.1 (omega arith) (omega arith) (λ below all.
              run_ends fuel c below small (λ less. ends less (rw e (ap suc (sym own ∙ all))))) in
          rw e (
            rw (and_then_lem _ d w tt q.0) (
              ih.0 ∙ ap (λ m. some (emptied m (next_buffer c))) own,
              ih.1
                  ∙ ap
                      (λ m.
                        shown w.1
                        ++ frames_text c.bytes (set_descr i b c.recv_buffer_descr) m ((i + 1) % 8))
                      own
                  ∙ ap (λ xs. shown w.1 ++ xs) texts
                  ∙ ap (λ xs. xs ++ frames_text c.bytes c.recv_buffer_descr n ((i + 1) % 8)) q.1
                  ∙ append_assoc (shown t) (frame_text c.bytes (c.recv_buffer_descr i))
                      (frames_text c.bytes c.recv_buffer_descr n ((i + 1) % 8)),
            ))
      | inr e ↦ rw e (refl, sym (append-nil (shown t)))
    ]

-- Receive ends, whatever the descriptors say: eight rounds are enough. It prints the frames of the buffers that
-- belong to the driver in a row from the current one on, in their order, and hands exactly those back to
-- the card; the buffer behind them is the current one.
pub receive_lem :
    (p : ℕ) (c : Amd) (d : Device) (t : List Event)
    → p < 8
    → c.current_recv_buffer < 8
    → let n = own_run 8 c.recv_buffer_descr c.current_recv_buffer in
      let r = receive 8 c d t in
      (r.0 ≡ some (emptied n c))
      × (shown r.1
          ≡ (shown t ++ codes "AMD am79c973 DATA RECEIVED\n")
            ++ frames_text c.bytes c.recv_buffer_descr n c.current_recv_buffer)
      × ((emptied n c).current_recv_buffer ≡ (c.current_recv_buffer + n) % 8)
      × ((emptied n c).recv_buffer_descr p ≡ (
          if ltb ((p + 8 - c.current_recv_buffer) % 8) n
          then handed_back (c.recv_buffer_descr p)
          else c.recv_buffer_descr p))
unfolding receive
receive_lem p c d t at small =
    let r =
      receive_loop_lem 8 c d (printed (codes "AMD am79c973 DATA RECEIVED\n") ∷ t) (omega arith)
        small (λ more all. absurd (omega arith)) in
    let n = own_run 8 c.recv_buffer_descr c.current_recv_buffer in
    let e = emptied_lem n p c (own_run_most 8 c.current_recv_buffer c.recv_buffer_descr) at small in
    (r.0, r.1, e.0, e.1)
