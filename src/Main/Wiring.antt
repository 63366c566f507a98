-- ===== src/Main/Wiring.antt =====
-- main.cpp, lines 338 to 450: which blocks are made, which of them are started, and the queue that
-- each of them reads.
use es_sensor.Prelude.{Bool, not, List, [], ◌∷◌, ◌++◌, ◌==◌, if◌then◌else◌, codes, text_eq}
use es_sensor.Context.{Context, default_tls_hosts, default_output_filename, output_type_byte}

pub data Block : Type 0 where
  driver : Block
  remove_dc : Block
  windowing : Block
  fft : Block
  averaging : Block
  psd_fast : Block
  iq_stream : Block
  remove_dc_rtl : Block
  avro : Block
  transmission : Block
  file_sink : Block
  iq_sink : Block

-- A queue by the block that fills it; the driver has two.
pub data Queue : Type 0 where
  out_of : Block → Queue
  out2_of_driver : Queue

-- `vComponents`, in order, and `setQueueIn` for each block that gets a queue.
pub record Wiring : Type 0 where
  pub components : List Block
  pub inputs : List (Block × Queue)

abbrev pub none_yet : Wiring
none_yet = record { components = driver ∷ []; inputs = [] }

-- `x->setQueueIn(q); vComponents.push_back(x);`
unfoldable pub connect : Block → Queue → Wiring → Wiring
connect b q w = record { components = w.components ++ (b ∷ []); inputs = w.inputs ++ ((b, q) ∷ []) }

-- The tests that `main` makes of the configuration.
pub record Choices : Type 0 where
  pub psd : Bool
  pub iq : Bool
  pub dec : Bool
  pub has_tls_hosts : Bool
  pub has_output_file : Bool
  pub byte_output : Bool

unfoldable pub choices : {F : Type 0} → Context F → Choices
choices c = record {
  psd = text_eq c.pipeline (codes "PSD");
  iq = text_eq c.pipeline (codes "IQ");
  dec = text_eq c.pipeline (codes "DEC");
  has_tls_hosts = not (text_eq c.tls_host default_tls_hosts);
  has_output_file = not (text_eq c.output_file_name default_output_filename);
  byte_output = c.output_type == output_type_byte;
}

unfoldable pub wire_pipeline : Choices → Wiring → Wiring
unfolding connect
wire_pipeline k w =
    if k.psd
    then connect averaging (out_of fft) (
        connect fft (out_of windowing)
          (connect windowing (out_of remove_dc) (connect remove_dc (out_of driver) w)))
    else if k.iq
    then w
    else if k.dec
    then connect iq_stream (out_of driver) (connect psd_fast out2_of_driver w)
    else w

-- The serialization block is made in every pipeline, but started only in two of them.
unfoldable pub wire_transmission : Choices → Wiring → Wiring
unfolding connect
wire_transmission k w =
    let serialized =
      if k.psd
      then connect avro (out_of averaging) w
      else if k.iq
      then connect avro (out_of remove_dc_rtl) (connect remove_dc_rtl (out_of driver) w)
      else w in
    connect transmission (out_of avro) serialized

unfoldable pub wire_file : Choices → Wiring → Wiring
unfolding connect
wire_file k w =
    if k.psd
    then connect file_sink (out_of averaging) w
    else if k.iq
    then (if k.byte_output
        then connect iq_sink (out_of driver) w
        else connect iq_sink (out_of remove_dc_rtl) (connect remove_dc_rtl (out_of driver) w))
    else w

unfoldable pub wire_choices : Choices → Wiring
unfolding wire_pipeline wire_transmission wire_file
wire_choices k =
    let w = wire_pipeline k none_yet in
    if k.has_tls_hosts
    then wire_transmission k w
    else if k.has_output_file
    then wire_file k w
    else w

unfoldable pub wire : {F : Type 0} → Context F → Wiring
unfolding wire_choices choices
wire c = wire_choices (choices c)
