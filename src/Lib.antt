-- ===== src/Lib.antt =====
-- es-sensor: the sensor of the Electrosense network. It tunes an RTL-SDR dongle, receives samples,
-- and sends spectrum measurements (pipeline PSD), raw samples (IQ) or decoded signals (DEC) to a
-- collector or into a file. Each part of the program is a thread with a queue in front of it; the
-- configuration is shared by all.
--
-- The files and what they model (paths from the repository's root):
--   Prelude    names shared by all: tests, lists, texts and integers over the native numbers.
--   Numeric    the conversions between C++ integer types, and an interface for `float` and `double`.
--   Context    context/ElectrosenseContext: the record of the settings, one function per setter
--              (Context.Set), `split` (Context.Split), and what keeps the settings valid.
--   Hopping    drivers/common/SequentialHopping: the list of centre frequencies and `nextHop`.
--   Segment    types/SpectrumSegment: what passes through the queues.
--   Queue      the interface of misc/readerwriterqueue.h, with the list as its instance.
--   Blocks     ProcessingBlocks: each block is a function from its state and a segment to its state
--              and the segments passed on; Blocks.Loop has the loop that drains a queue, and
--              Blocks.PsdPipeline puts the blocks behind one another as main.cpp does.
--   Receiver   drivers/rtlsdr/rtlsdrDriver.cpp: `open` (Open), the loop `SyncSampling` (Tune, Cut,
--              Sync), the asynchronous callback and the start time (Async), the polling thread of
--              the DEC pipeline (Control). The other modules prove: Bounds, Inside and Windows
--              the cutting, Direct the mode, Silence, Course, RoundSteps, Rounds and Chain what
--              the rounds send, Streams the callback.
--   Network    MiscBlocks/Transmission.cpp (Hosts, Packets, Transmission), misc/TCP.cpp (Tcp) and
--              misc/TLS.cpp (Tls), the set-up and closing of connections (Setup), with what a
--              collector reads (PacketLaws, Delivery).
--   Filters    MiscBlocks/Filter: the CIC filter over 32-bit numbers (Cic), the polyphase filter
--              (Fir), the design of its taps (Design), both filters behind one another (Downsampler) and
--              their constructor (Construct). The other modules prove.
--   Converter  drivers/rtlsdr/converter/converter.c: the text of a reply (Reply), the port, the
--              commands, tuning and set-up (Commands); and rtlsdr_proxy.c (Proxy). Decimal,
--              CommandLaws, InitLaws, TuneLaws and ProxyLaws prove.
--   Decoder    MiscBlocks/IQStream.cpp: the decoders and how the samples are resampled for them
--              (Programs), the message to the decoder (Bytes, Messages), the loop (Stream); and
--              ProcessingBlocks/PSDFast.cpp: the spectrum's datagram (Spectrum) and the settings that
--              come back (Control). MessageLaws, StreamLaws and SpectrumLaws prove.
--   Sinks      MiscBlocks/FileSink.cpp (Csv), MiscBlocks/IQSink.cpp (Samples), and
--              MiscBlocks/AvroSerialization.cpp: the values that are sent (Avro), the records and the
--              buffers (AvroRecords), the sensor's id (Mac). CsvLaws, AvroLaws and MacLaws prove.
--   Shutdown   drivers/Component.h and `finish_ok` of main.cpp: the receiver's thread and the blocks'
--              as steps that follow one another in any order. One step is one round of a loop, with its
--              test, or the end of a loop, or `stop` of one component, which waits until the one
--              before has been joined. Order, Results and Ending prove; Iq has the IQ pipeline into a file.
--   Main       main.cpp: the command line (Args), the wiring of the blocks (Wiring) and the loop that
--              watches them (Watch).
--   Tests      runs of the functions and of the theorems on concrete data.
--
-- How the code corresponds: state that a thread changes is a record that its functions take and
-- return; an exception, an exit, and an access out of bounds where the component's results speak
-- of it, is `none`, or a constructor of its own. What is outside (the rtl-sdr, liquid, Avro and
-- JSON libraries, the serial port, sockets, OpenSSL, getopt, the clock) is a parameter: a
-- function, or the list of its answers in order; the commands that the dongle gets are recorded.
-- Unsigned arithmetic of 32 and 64 bits is written out modulo its range, but for indices and rates
-- of the filters, which are taken to be far below 2 ^ 32; a double that is cut to an integer is
-- taken to be exact (below 2 ^ 53) and in the type's range. Floating point is an interface with no
-- laws, so that no theorem says anything about rounding; its test instance counts 600ths.
--
-- Fuel: `split` and `parse_tls_hosts` run on the length of the text, as each round passes a
-- delimiter; the draining loop is shown to end with one more than the segments in its queue; the
-- polyphase filter's inner loop is shown to end within as many rounds as its input rate; `gcd` is
-- shown to be a common divisor with fuel above its second number, which its caller gives. The loop
-- over the rates of the CIC filter and the sums of the tap design, both over floating point, run on
-- fuel that the caller gives. The other loops run over lists of answers or of segments; where a
-- loop of the program waits for more than the list holds, the result says so.
--
-- Not modelled: the loading of the Avro schemas; the fractional filter, which the program never
-- takes; opening IQStream's and PSDFast's sockets and the fork; the start of the threads and the
-- signal handlers, which call `finish_ok`; the queue itself, a copy of another project; printing
-- and the freeing of memory. Outside Shutdown, a thread is seen alone, between its queues.
pub mod Prelude
pub mod Numeric
pub mod Context
pub mod Filters
pub mod Converter
pub mod Decoder
pub mod Hopping
pub mod Segment
pub mod Queue
pub mod Blocks
pub mod Receiver
pub mod Network
pub mod Sinks
pub mod Shutdown
pub mod Main
pub mod Tests
