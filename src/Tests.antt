-- ===== src/Tests.antt =====
-- Runs of the program's functions and of the theorems on concrete data.
pub mod Data
pub mod Context
pub mod Hopping
pub mod Blocks
pub mod Receiver
pub mod Network
pub mod Program
pub mod Filters
pub mod Converter
pub mod Decoder
pub mod Serialization
pub mod Shutdown
