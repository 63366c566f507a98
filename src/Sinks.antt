-- ===== src/Sinks.antt =====
-- MiscBlocks/FileSink.cpp and MiscBlocks/IQSink.cpp: the segments go to a file; and what
-- MiscBlocks/AvroSerialization.cpp takes from them.
pub mod Csv
pub mod CsvLaws
pub mod Samples
pub mod Avro
pub mod AvroRecords
pub mod AvroLaws
pub mod Mac
pub mod MacLaws
