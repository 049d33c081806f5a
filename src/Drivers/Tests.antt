-- ===== src/Drivers/Tests.antt =====
-- The keyboard and the mouse drivers on a few bytes.
use implementing_os_and_syst.Base.{ℕ, List, ◌≡◌, refl, [], ◌∷◌, codes, All, arith}
use implementing_os_and_syst.Drivers.Manager.{Driver}
use implementing_os_and_syst.Drivers.Keyboard.{
  HasKey, key_of, key_in, handle_bytes, presses, downs, handle_bytes-presses,
}
use implementing_os_and_syst.Drivers.Mouse.{
  MouseDriver, Agrees, IsOrderly, held, changes, handle_packets, handle_packets_lem, mouse_down,
}

word-HasKey : All HasKey (codes "zy")
unfolding key_of key_in
word-HasKey = ((omega arith, λ e. ground arith), ((omega arith, λ e. ground arith), tt))

handle_bytes-presses_example : handle_bytes (presses (codes "zy")) ≡ downs (codes "zy")
handle_bytes-presses_example = handle_bytes-presses (codes "zy") word-HasKey

abbrev driver : MouseDriver
driver = record { offset = 0; buttons = 0; buffer = λ i. 0 }

press_left : changes 3 0 9 0 ≡ mouse_down 1 ∷ []
unfolding changes
press_left = refl

abbrev packets : List (ℕ × ℕ × ℕ)
packets = (9, 1, 2) ∷ (12, 0, 0) ∷ []

-- The first button is pressed; then it is released and the third one is pressed.
handle_packets_lem_example :
    ((handle_packets 0x20 packets driver).0.offset ≡ 0)
    × ((handle_packets 0x20 packets driver).0.buttons ≡ 12)
    × Agrees (held (handle_packets 0x20 packets driver).1 (λ b. 0)) 12
    × IsOrderly (handle_packets 0x20 packets driver).1 (λ b. 0)
handle_packets_lem_example =
    handle_packets_lem 0x20 packets driver (λ b. 0) refl refl (λ i h. omega arith)

-- Drivers that note their number.
abbrev noting : ℕ → Driver (List ℕ)
noting n = record { activate = λ s. n ∷ s; reset = λ s. (s, 0); deactivate = λ s. s }
