-- ===== src/Kernel.antt =====
-- source/src/kernel.cpp: the console, the conversion and the reading of integers, the mouse pointer,
-- and the searches of the demonstration tasks.
pub mod Console
pub mod Integers
pub mod Hex
pub mod Sleep
pub mod Scanf
pub mod Search
pub mod Collatz
pub mod Products
pub mod Pointer
mod Tests
