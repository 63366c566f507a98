-- ===== src/Decoder.antt =====
-- The DEC pipeline's end: MiscBlocks/IQStream.cpp, which runs a decoder and feeds it, and
-- ProcessingBlocks/PSDFast.cpp, which shows the spectrum and takes the settings.
pub mod Bytes
pub mod Programs
pub mod Messages
pub mod MessageLaws
pub mod Stream
pub mod StreamLaws
pub mod Spectrum
pub mod Control
pub mod SpectrumLaws
