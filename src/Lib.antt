-- ===== src/Lib.antt =====
-- A verification of a small teaching operating system: its process table and system calls, its
-- scheduler, its heap, its interrupt table, its console and its drivers, and the runs of all of them
-- together.
--
-- The parts and how they interact. An interrupt enters through a stub of interruptstubs.s, which pushes
-- the register frame and calls InterruptManager::HandleInterrupt with the number and the address of the
-- frame. The manager calls the handler that is registered for the number, calls the scheduler on the
-- timer interrupt, acknowledges hardware interrupts to the two controllers, and returns the frame to
-- restore. The handler of interrupt 0x80 performs the system calls on the task manager; two of them,
-- waitpid and exit, end in a timer interrupt of their own, which reschedules. The keyboard and the mouse
-- drivers turn the bytes of the controller into calls of their handlers: the reader of integers behind
-- scanf, the pointer of the text screen.
--
-- The files.
--   Base           shared names, list lemmas, checks of bit operations over a small range.
--   Machine        source/include/common/types.h and CPUState of source/include/multitasking.h: words as bit
--                  patterns, the memory of stacks and frames as a function from word addresses, copies.
--   Gdt            source/src/gdt.cpp: segment_descriptor is the constructor, base and limit the accessors.
--   Multitasking   source/src/multitasking.cpp: create_process, add_task, fork, find_task_by_pid, waitpid,
--                  exit, execve and the setters are the methods of those names. Table prints the process
--                  table, Scheduler is Schedule: before_pick does what comes before the loop, pick is
--                  the loop, dispatch what comes behind it.
--   Syscalls       source/src/syscalls.cpp: handle_interrupt is SyscallHandler::HandleInterrupt, select its
--                  switch, perform the body of each case. User is the wrappers of source/src/kernel.cpp that
--                  raise interrupt 0x80.
--   Memory         source/src/memorymanagement.cpp: malloc, free and the operators new and delete. Blocks is
--                  the abstract heap, a row of blocks; Refine relates it to the headers in memory.
--   Interrupts     source/src/hardwarecommunication/interrupts.cpp: build_idt and remap are the constructor of
--                  InterruptManager, do_handle_interrupt the dispatch, over the record Kernel of
--                  what the dispatcher calls.
--   Kernel         source/src/kernel.cpp: printf (Console), int_to_string and print_integer (Integers),
--                  printfHex (Hex), the handler behind scanf (Scanf), the searches and the
--                  loops of the demonstration tasks (Search, Collatz, Products), the busy loop
--                  of sleep (Sleep), the mouse pointer (Pointer).
--   Programs       source/src/kernel.cpp: the task bodies as programs of actions, by the names of the functions
--                  (Workers, Forks, Launchers). Steps is a run of one body; Protocol, Obedience and
--                  Strategies say what parents, children and workers may do; Ends (with Lines) is the end of a
--                  worker; AtMost counts forks. World runs all tasks over the task manager: Bound,
--                  Runs and Launched for the strategies, Family and Offspring for the tests of fork.
--   System         source/src/kernel.cpp: kernel_main is kernelMain up to the activation of the interrupts,
--                  interrupt the dispatcher over the objects that it builds. Steps is the relation of
--                  the runs: interrupts at any time, and what tasks do between them. Boot has
--                  callConstructors and the heap, Activation the activation of the drivers over a
--                  keyboard controller that is an argument.
--   Ports          source/src/hardwarecommunication/port.cpp: a driver is an action on the trace of accesses,
--                  and a device a function from the trace to what the next read gives. Polling is the
--                  loop on a status port.
--   Ata            source/src/drivers/ata.cpp: identify, read28, write28 and flush. Sector is what is written,
--                  Roundtrip what is read back, Errors the errors and the refused commands.
--   Network        source/src/drivers/amd_am79c973.cpp: send, receive and handle_interrupt, with the rings of
--                  descriptors by number; Setup is the constructor, Activate and Reset.
--   Drivers        source/src/drivers: keyboard.cpp (Keyboard), mouse.cpp (Mouse), driver.cpp (Manager), and
--                  vga.cpp (Vga, its Mode the writes of registers).
--   Pci            source/src/hardwarecommunication/pci.cpp: config_address is the address that Read writes, select_drivers
--                  the functions that SelectDrivers comes to, over the configuration space as a function;
--                  Drivers is GetDriver and the rest of the body of SelectDrivers.
--   Gui            source/src/gui: the events of CompositeWidget, Window and Desktop (Desktop), over the record Child of
--                  the virtual functions of a child; Widgets: a tree of widgets, its drawing, its presses of
--                  a button, and where its keys end. The parent of a widget is the one that holds it, so
--                  that the calls of GetFocus are results that go up the tree; Virtual says that the tree is
--                  an instance of the record.
--   The Tests modules run the definitions at concrete inputs.
--
-- Numbers. An int, an unsigned and a pointer are 32-bit patterns below 2 ^ 32, and the model writes the
-- wrap-around out; -1 is 0xFFFFFFFF, and the comparison of two int values goes by signed_lt. What C++
-- leaves undefined, the negation of the smallest int, is kept out by a hypothesis.
--
-- Bounds and fuel. The loop of Schedule may start over each time that it finds a better task; 2 n + 1
-- rounds are enough for n tasks, since it looks at no task more than twice. The search of malloc
-- takes fuel, and any amount above the number of chunks is enough. The binary search takes the number of
-- elements as fuel. The loop
-- on a status port takes the number of reads that it may make; the disk decides when it ends, and
-- any fuel that reaches the first status that is not busy is enough. The loop of Receive takes 8
-- rounds, the size of the ring. The Collatz loops
-- take fuel, and the length of the sequence is enough. The scan of the PCI controller takes the fuel of its
-- mallocs, and one above the number of chunks and devices is enough. All other loops are structural. A system call never runs out of fuel.
--
-- State that the code leaves uninitialised (the entries of a fresh process table, the headers outside the
-- heap, the text screen) is an argument. The bytes that ports give, and what stands in memory behind a
-- character whose address is printed, are arguments too.
--
-- Not modelled: the assembly stubs and the loader, which are single machine instructions; what a network card does to its descriptors
-- while Receive runs; the commented out earlier schedulers; what AddDriver overwrites beyond the 265 places of
-- its array, where it returns none. A child shares the frame of its parent (fork_shares_frame). In Programs its
-- `pid` and `initializedProcesses` are therefore stored and read by actions of their own, and a read may give any
-- value, so that no order of the tasks is left out; what is stated of the strategies is for the runs where each side reads what
-- it has stored last (IsUndisturbed, Undisturbed), since otherwise a child that reads the parent's pid goes on as the parent. The other locals, the loop
-- counters, are each task's own; only a parent writes them in such runs. A computation of a worker is one action, but only where its
-- loop ends (ending). In a run of the system the tasks touch only the memory of their stacks and
-- frames, the screen and the reader of integers; the port writes of an acknowledgement do not touch the objects. What
-- SYS_PRINT_TABLE and the aging step print is part of the task manager's output, and moves no cursor of the
-- console.
pub mod Base
pub mod Machine
pub mod Gdt
pub mod Multitasking
pub mod Syscalls
pub mod Memory
pub mod Interrupts
pub mod Kernel
pub mod Drivers
pub mod Gui
pub mod Pci
pub mod Ports
pub mod Ata
pub mod Network
pub mod Programs
pub mod System
