-- ===== src/Network/Interrupt.antt =====
-- HandleInterrupt of source/src/drivers/amd_am79c973.cpp.
use implementing_os_and_syst.Base.{
  ℕ, ◌%◌, ◌^◌, ◌<◌, ◌≡◌, refl, ap, ◌∙◌, Option, some, Bool, false, true, get_or, List, ◌∷◌,
  if◌then◌else◌, arith, codes,
}
use implementing_os_and_syst.Ports.{
  Device, Event, and_then_lem, when, print, pure, printed, sent, received, word,
}
use implementing_os_and_syst.Ports.Trace.{sent_to}
use implementing_os_and_syst.Network.{
  Amd, has_bit, receive, handle_interrupt, register_data_port, register_address_port,
}
use implementing_os_and_syst.Network.Ring.{own_run, emptied}
use implementing_os_and_syst.Network.Receive.{receive_lem}

-- A message that depends on a bit.
noted :
    (b : Bool) (text : List ℕ) (d : Device) (t : List Event) → (when b (print text) d t).0 ≡ some tt
noted true text d t = refl
noted false text d t = refl

noted-sent_to :
    (p : ℕ) (b : Bool) (text : List ℕ) (d : Device) (t : List Event)
    → sent_to p (when b (print text) d t).1 ≡ sent_to p t
noted-sent_to p true text d t = refl
noted-sent_to p false text d t = refl

-- What the status says of the receive buffers.
received_lem :
    (b : Bool) (c : Amd) (d : Device) (t : List Event)
    → c.current_recv_buffer < 8
    → ((if b then receive 8 c else pure c) d t).0
      ≡ some (if b then emptied (own_run 8 c.recv_buffer_descr c.current_recv_buffer) c else c)
received_lem true c d t small = (receive_lem 0 c d t (omega arith) small).0
received_lem false c d t small = refl

-- The card's status, as the interrupt reads it.
abbrev pub status_of : Amd → Device → List Event → ℕ
status_of c d t =
    d
      (sent word (register_address_port c.port_base).number 0
        ∷ printed (codes "INTERRUPT FROM AMD am79c973\n")
        ∷ t)
      (register_data_port c.port_base).number
    % 2 ^ 16

-- The traces between the parts of the interrupt.
module _ (c : Amd) (d : Device) (t : List Event) where
  abbrev message : ℕ → List ℕ → List Event → Option (Unit {0}) × List Event
  message bit text u = when (has_bit (status_of c d t) bit) (print text) d u

  abbrev seen : List Event
  seen =
      received word (register_data_port c.port_base).number (status_of c d t)
      ∷ sent word (register_address_port c.port_base).number 0
      ∷ printed (codes "INTERRUPT FROM AMD am79c973\n")
      ∷ t

  abbrev failed : Option (Unit {0}) × List Event
  failed = message 15 (codes "AMD am79c973 ERROR\n") seen

  abbrev collided : Option (Unit {0}) × List Event
  collided = message 13 (codes "AMD am79c973 COLLISION ERROR\n") failed.1

  abbrev missed : Option (Unit {0}) × List Event
  missed = message 12 (codes "AMD am79c973 MISSED FRAME\n") collided.1

  abbrev misread : Option (Unit {0}) × List Event
  misread = message 11 (codes "AMD am79c973 MEMORY ERROR\n") missed.1

  abbrev arrived : Option Amd × List Event
  arrived = (if has_bit (status_of c d t) 10 then receive 8 c else pure c) d misread.1

  abbrev done : Option (Unit {0}) × List Event
  done = message 9 (codes "AMD am79c973 DATA SENT\n") arrived.1

  abbrev acknowledged : List Event
  acknowledged =
      sent word (register_data_port c.port_base).number (status_of c d t % 2 ^ 16)
      ∷ sent word (register_address_port c.port_base).number 0
      ∷ done.1

  abbrev started : Option (Unit {0}) × List Event
  started = message 8 (codes "AMD am79c973 INIT DONE\n") acknowledged

  message_ends : (bit : ℕ) (text : List ℕ) (u : List Event) → (message bit text u).0 ≡ some tt
  message_ends bit text u = noted (has_bit (status_of c d t) bit) text d u

  handle_interrupt_parts :
      (after : Amd) → arrived.0 ≡ some after → handle_interrupt 8 c d t ≡ (some after, started.1)
  unfolding handle_interrupt
  handle_interrupt_parts after e = rw (and_then_lem _ d failed tt (message_ends 15 _ seen)) (
      rw (and_then_lem _ d collided tt (message_ends 13 _ failed.1)) (
        rw (and_then_lem _ d missed tt (message_ends 12 _ collided.1)) (
          rw (and_then_lem _ d misread tt (message_ends 11 _ missed.1)) (
            rw (and_then_lem _ d arrived after e) (
              rw (and_then_lem _ d done tt (message_ends 9 _ arrived.1))
                (rw (and_then_lem _ d started tt (message_ends 8 _ acknowledged)) refl))))))

-- The interrupt always ends. It empties the receive buffers exactly if the status says that a frame came
-- in, and acknowledges what it has seen: the last value sent to the data register is the status.
pub handle_interrupt_lem :
    (c : Amd) (d : Device) (t : List Event)
    → c.current_recv_buffer < 8
    → let r = handle_interrupt 8 c d t in
      (r.0
        ≡ some (
            if has_bit (status_of c d t) 10
            then emptied (own_run 8 c.recv_buffer_descr c.current_recv_buffer) c
            else c))
      × (get_or (sent_to (register_data_port c.port_base).number r.1) 0 0 ≡ status_of c d t)
handle_interrupt_lem c d t small =
    let b = has_bit (status_of c d t) 10 in
    rw (handle_interrupt_parts c d t _ (received_lem b c d (misread c d t).1 small)) (
      refl,
      ap (λ xs. get_or xs 0 0)
            (noted-sent_to (register_data_port c.port_base).number (has_bit (status_of c d t) 8)
              (codes "AMD am79c973 INIT DONE\n") d (acknowledged c d t))
          ∙ ground arith,
    )
