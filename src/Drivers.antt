-- ===== src/Drivers.antt =====
-- source/src/drivers: the keyboard, the mouse, and the pixels of the graphics card.
pub mod Keyboard
pub mod Mouse
pub mod Vga
pub mod Manager
mod Tests
