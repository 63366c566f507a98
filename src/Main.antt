-- ===== src/Main.antt =====
-- main.cpp: the command line, the checks before the start, and how the blocks are put together.
pub mod Args
pub mod ArgsValid
pub mod Wiring
pub mod WiringLaws
pub mod Watch
