-- ===== src/Network/Tests.antt =====
-- The card on a ring in which two frames have come in.
use implementing_os_and_syst.Base.{
  ℕ, ◌+◌, ◌-◌, ◌*◌, ◌%◌, ◌^◌, ◌≡◌, refl, inl, some, true, false, [], ◌++◌, codes, get_or, leb, ◌==◌,
  if◌then◌else◌, arith,
}
use implementing_os_and_syst.Ports.{Device}
use implementing_os_and_syst.Ports.Trace.{shown, sent_to}
use implementing_os_and_syst.Network.{
  Amd, BufferDescriptor, is_ours, send, receive, handle_interrupt, handed_back,
}
use implementing_os_and_syst.Network.Ring.{own_run, emptied, frames_text}
use implementing_os_and_syst.Network.Receive.{receive_lem}
use implementing_os_and_syst.Network.Interrupt.{handle_interrupt_lem}
use implementing_os_and_syst.Network.Send.{send_lem}
use implementing_os_and_syst.Network.Setup.{Layout, amd_am79c973}
use implementing_os_and_syst.Network.Setup.Buffers.{amd_am79c973_lem}

-- Buffers 6 and 7 hold frames of two bytes, the others are the card's.
abbrev two_frames : ℕ → BufferDescriptor
two_frames i = record {
  address = 0x1000 + 0x10 * i;
  flags = if leb 6 i then 0x0300_0002 else 0x8000_F7FF;
  flags2 = 0;
  avail = 0;
}

abbrev card : Amd
card = record {
  port_base = 0xC000;
  init_block = record {
    num_send_buffers = 3;
    num_recv_buffers = 3;
    physical_address = 0;
    recv_buffer_descr_address = 0;
    send_buffer_descr_address = 0;
  };
  send_buffer_descr =
      λ i. record { address = 0x2000 + 0x800 * i; flags = 0; flags2 = 0; avail = 0 };
  current_send_buffer = 7;
  recv_buffer_descr = two_frames;
  current_recv_buffer = 6;
  bytes = λ a. 0xAB;
}

abbrev answers : Device
answers t p = 0x0480

run_of_two : own_run 8 two_frames 6 ≡ 2
run_of_two = refl

receive_lem_example :
    ((receive 8 card answers []).0 ≡ some (emptied 2 card))
    × (shown (receive 8 card answers []).1
        ≡ codes "AMD am79c973 DATA RECEIVED\n" ++ frames_text card.bytes two_frames 2 6)
    × ((emptied 2 card).current_recv_buffer ≡ 0)
    × ((emptied 2 card).recv_buffer_descr 7 ≡ handed_back (two_frames 7))
receive_lem_example = receive_lem 7 card answers [] (omega arith) (omega arith)

handle_interrupt_lem_example :
    ((handle_interrupt 8 card answers []).0 ≡ some (emptied 2 card))
    × (get_or (sent_to 0xC010 (handle_interrupt 8 card answers []).1) 0 0 ≡ 0x0480)
handle_interrupt_lem_example = handle_interrupt_lem card answers [] (omega arith)

send_lem_example :
    (after : Amd) × ((send 0x100 3 card answers []).0 ≡ some after)
    × (after.bytes 0x5801 ≡ 0xAB)
    × (is_ours (after.send_buffer_descr 7) ≡ false)
    × ((4096 - (after.send_buffer_descr 7).flags % 4096) % 4096 ≡ 3)
    × (after.current_send_buffer ≡ 0)
    × (after.send_buffer_descr 2 ≡ card.send_buffer_descr 2)
send_lem_example = send_lem 0x100 3 0x5801 2 card answers [] (omega arith) (inl (omega arith))

abbrev layout : Layout
layout = record {
  init_block_at = 0x30_0000;
  send_buffer_descr_memory = 0x30_0040;
  recv_buffer_descr_memory = 0x30_0900;
  send_buffers = 0x30_2001;
  recv_buffers = 0x30_8001;
}

abbrev proms : Device
proms t p = if p == 0xC000 then 0x1234 else if p == 0xC002 then 0x5678 else 0x9ABC

amd_am79c973_lem_example :
    (c : Amd) × ((amd_am79c973 layout 0xC000 card proms []).0 ≡ some c)
    × (is_ours (c.recv_buffer_descr 3) ≡ false)
    × (is_ours (c.send_buffer_descr 3) ≡ true)
    × ((c.recv_buffer_descr 3).address % 16 ≡ 0)
    × ((c.send_buffer_descr 3).address % 16 ≡ 0)
    × (c.current_recv_buffer ≡ 0)
    × (c.current_send_buffer ≡ 0)
    × (c.init_block.physical_address ≡ 0x9ABC * 2 ^ 32 + 0x5678 * 2 ^ 16 + 0x1234)
amd_am79c973_lem_example =
    amd_am79c973_lem 3 0x1234 0x5678 0x9ABC layout 0xC000 card proms [] (omega arith) (λ u. refl)
      (λ u. refl) (λ u. refl)
