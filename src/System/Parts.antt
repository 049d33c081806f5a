-- ===== src/System/Parts.antt =====
-- The parts of the kernel of source/src/kernel.cpp keep its objects sound.
use implementing_os_and_syst.Base.{
  ℕ, ◌<◌, ◌≤◌, ◌≡◌, refl, sym, subst, ◌∙◌, Bool, true, false, Option, some, List, [], ◌∷◌, codes,
  ◌==◌, if◌then◌else◌, arith,
}
use implementing_os_and_syst.Multitasking.{TaskManager}
use implementing_os_and_syst.Multitasking.Invariant.{IsValid}
use implementing_os_and_syst.Syscalls
use implementing_os_and_syst.Syscalls.Laws.{
  EndsValid, schedule-EndsValid, handle_interrupt-EndsValid,
}
use implementing_os_and_syst.Syscalls.Growth.{handle_interrupt-EndsGrown}
use implementing_os_and_syst.Multitasking.Scheduler.{schedule}
use implementing_os_and_syst.Multitasking.Scheduler.Growth.{EndsGrown, schedule-EndsGrown}
use implementing_os_and_syst.Interrupts.Parts.{Ends, Keeps}
use implementing_os_and_syst.Kernel.Console.{Console, IsOnScreen, printf, printf-IsOnScreen}
use implementing_os_and_syst.Kernel.Integers.{int_to_string, print_integer}
use implementing_os_and_syst.Kernel.Hex.{hex_text, print_mouse_up}
use implementing_os_and_syst.Kernel.Scanf.{IntegerScanf, on_key_down, echo, read_key}
use implementing_os_and_syst.Kernel.Pointer.{on_mouse_move, move}
use implementing_os_and_syst.Drivers.Keyboard
use implementing_os_and_syst.Drivers.Keyboard.{KeyEvent, key_down, unknown_key}
use implementing_os_and_syst.Drivers.Mouse
use implementing_os_and_syst.Drivers.Mouse.{
  MouseDriver, MouseEvent, mouse_move, mouse_up, mouse_down,
}
use implementing_os_and_syst.System.{
  System, Inputs, on_key_event, on_key_events, on_mouse_event, on_mouse_events, with_manager,
  handle, kernel, syscalls_id, keyboard_id,
}

-- At least `floor` tasks are in the table, which is valid, cursor and pointer are on the screen, and the mouse driver is somewhere in a
-- packet of three bytes.
pub record IsSound (floor : ℕ) (s : System) : Type 0 where
  pub grown : floor ≤ s.manager.num_tasks
  pub table : IsValid s.manager
  pub cursor : IsOnScreen s.console
  pub pointer_column : s.pointer_x < 80
  pub pointer_row : s.pointer_y < 25
  pub in_packet : s.mouse.offset < 3

if_keeps : {S : Type 0} (P : S → Type 0) (b : Bool) (x y : S) → P x → P y → P (if b then x else y)
if_keeps P true x y p q = p
if_keeps P false x y p q = q

pub print-IsOnScreen : (cs : List ℕ) (s : Console) → IsOnScreen s → IsOnScreen (printf cs s)
print-IsOnScreen cs s v = (printf-IsOnScreen cs s v).0

pub with_console :
    (floor : ℕ) (s : System) (c : Console)
    → IsSound floor s
    → IsOnScreen c
    → IsSound floor (record s { console = c })
with_console floor s c v o = record {
  grown = v.grown;
  table = v.table;
  cursor = o;
  pointer_column = v.pointer_column;
  pointer_row = v.pointer_row;
  in_packet = v.in_packet;
}

on_key_event_keeps :
    (floor : ℕ) (tail : List ℕ) (e : KeyEvent) (s : System)
    → IsSound floor s
    → IsSound floor (on_key_event tail e s)
unfolding on_key_event on_key_down
on_key_event_keeps floor tail (key_down c) s v =
    if_keeps
      (λ (p : IntegerScanf × Console). IsSound floor (record s { reader = p.0; console = p.1 }))
      s.reader.completed (s.reader, s.console) (read_key c s.reader, echo c tail s.console) v
      (record {
        grown = v.grown;
        table = v.table;
        cursor =
            if_keeps IsOnScreen (c == 0) s.console (printf (c ∷ tail) s.console) v.cursor
              (print-IsOnScreen (c ∷ tail) s.console v.cursor);
        pointer_column = v.pointer_column;
        pointer_row = v.pointer_row;
        in_packet = v.in_packet;
      })
on_key_event_keeps floor tail (unknown_key key) s v =
    with_console floor s (printf (hex_text key) (printf (codes "KEYBOARD 0x") s.console)) v (
      print-IsOnScreen (hex_text key) (printf (codes "KEYBOARD 0x") s.console)
        (print-IsOnScreen (codes "KEYBOARD 0x") s.console v.cursor))

on_key_events_keeps :
    (floor : ℕ) (tail : List ℕ) (es : List KeyEvent) (s : System)
    → IsSound floor s
    → IsSound floor (on_key_events tail es s)
unfolding on_key_events
on_key_events_keeps floor tail [] s v = v
on_key_events_keeps floor tail (e ∷ es) s v =
    on_key_events_keeps floor tail es (on_key_event tail e s) (on_key_event_keeps floor tail e s v)

move_lt : (bound v offset : ℕ) → 0 < bound → move bound v offset < bound
unfolding move
move_lt bound v offset h = ground arith

on_mouse_event_keeps :
    (floor : ℕ) (e : MouseEvent) (s : System) → IsSound floor s → IsSound floor (on_mouse_event e s)
unfolding on_mouse_event on_mouse_move print_mouse_up print_integer
on_mouse_event_keeps floor (mouse_move x y) s v = record {
  grown = v.grown;
  table = v.table;
  cursor = record { column = v.cursor.column; row = v.cursor.row };
  pointer_column = move_lt 80 s.pointer_x x (omega arith);
  pointer_row = move_lt 25 s.pointer_y y (omega arith);
  in_packet = v.in_packet;
}
on_mouse_event_keeps floor (mouse_up b) s v =
    let c1 = printf (codes "Mouse Button ") s.console in
    let c2 = printf (int_to_string b 20) c1 in
    with_console floor s (printf (codes "\n") c2) v (
      print-IsOnScreen (codes "\n") c2 (
        print-IsOnScreen (int_to_string b 20) c1
          (print-IsOnScreen (codes "Mouse Button ") s.console v.cursor)))
on_mouse_event_keeps floor (mouse_down b) s v = v

on_mouse_events_keeps :
    (floor : ℕ) (es : List MouseEvent) (s : System)
    → IsSound floor s
    → IsSound floor (on_mouse_events es s)
unfolding on_mouse_events
on_mouse_events_keeps floor [] s v = v
on_mouse_events_keeps floor (e ∷ es) s v =
    on_mouse_events_keeps floor es (on_mouse_event e s) (on_mouse_event_keeps floor e s v)

mouse_in_packet :
    (status byte : ℕ) (d : MouseDriver)
    → d.offset < 3
    → (Mouse.handle_interrupt true status byte d).0.offset < 3
unfolding Mouse.handle_interrupt
mouse_in_packet status byte d h = ground arith

chosen :
    {a b : TaskManager} {p q : ℕ}
    → ◌≡◌ {A = Option (TaskManager × ℕ)} (some (a, p)) (some (b, q))
    → a ≡ b
chosen h = cc

with_manager_keeps :
    (floor : ℕ) (s : System) (r : Option (TaskManager × ℕ))
    → IsSound floor s
    → EndsValid r
    → EndsGrown s.manager.num_tasks r
    → Ends (IsSound floor) (with_manager s r)
with_manager_keeps floor s r v (m, esp, e, valid) (m2, esp2, e2, larger) =
    let more =
      subst (λ (n : TaskManager). s.manager.num_tasks ≤ n.num_tasks) (chosen (sym e2 ∙ e)) larger in
    subst (λ q. Ends (IsSound floor) (with_manager s q)) (sym e)
      (
        record s { manager = m },
        esp,
        refl,
        record {
          grown = omega (arith, v.grown, more);
          table = valid;
          cursor = v.cursor;
          pointer_column = v.pointer_column;
          pointer_row = v.pointer_row;
          in_packet = v.in_packet;
        },
      )

handle_keeps :
    (floor : ℕ) (in_ : Inputs) (h esp : ℕ) (s : System)
    → IsSound floor s
    → Ends (IsSound floor) (handle in_ h esp s)
unfolding handle
handle_keeps floor in_ h esp s v =
    let r = Mouse.handle_interrupt true in_.status in_.byte s.mouse in
    let events = Keyboard.handle_interrupt true in_.byte in
    if_keeps (Ends (IsSound floor)) (h == syscalls_id)
      (with_manager s (Syscalls.handle_interrupt esp in_.nested s.manager))
      (if h == keyboard_id
        then some (on_key_events in_.tail events s, esp)
        else some (on_mouse_events r.1 (record s { mouse = r.0 }), esp))
      (with_manager_keeps floor s (Syscalls.handle_interrupt esp in_.nested s.manager) v
        (handle_interrupt-EndsValid esp in_.nested s.manager v.table)
        (handle_interrupt-EndsGrown esp in_.nested s.manager))
      (if_keeps (Ends (IsSound floor)) (h == keyboard_id)
        (some (on_key_events in_.tail events s, esp))
        (some (on_mouse_events r.1 (record s { mouse = r.0 }), esp))
        (_, esp, refl, on_key_events_keeps floor in_.tail events s v)
        (
          _,
          esp,
          refl,
          on_mouse_events_keeps floor r.1 (record s { mouse = r.0 })
              (record {
                grown = v.grown;
                table = v.table;
                cursor = v.cursor;
                pointer_column = v.pointer_column;
                pointer_row = v.pointer_row;
                in_packet = mouse_in_packet in_.status in_.byte s.mouse v.in_packet;
              }),
        ))

pub kernel-Keeps : (floor : ℕ) (in_ : Inputs) → Keeps (kernel in_) (IsSound floor)
kernel-Keeps floor in_ = record {
  handle_keeps = handle_keeps floor in_;
  schedule_keeps = λ esp s v.
      with_manager_keeps floor s (schedule esp s.manager) v
        (schedule-EndsValid esp s.manager v.table) (schedule-EndsGrown esp s.manager);
  unhandled_keeps = λ i s v.
      with_console floor s (printf (hex_text i) (printf (codes "UNHANDLED INTERRUPT 0x") s.console))
        v
        (print-IsOnScreen (hex_text i) (printf (codes "UNHANDLED INTERRUPT 0x") s.console)
          (print-IsOnScreen (codes "UNHANDLED INTERRUPT 0x") s.console v.cursor));
  write_port_keeps = λ port value s v. v;
}
