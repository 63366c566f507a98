-- ===== src/Filters.antt =====
-- MiscBlocks/Filter: the filters that bring the samples down to the rate of a decoder.
pub mod Cic
pub mod Streams
pub mod CicLaws
pub mod CicGain
pub mod Fir
pub mod Rings
pub mod Polyphase
pub mod FirLaws
pub mod Design
pub mod Mirrors
pub mod DesignLaws
pub mod Downsampler
pub mod Construct
pub mod ConstructLaws
