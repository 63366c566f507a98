-- ===== src/Main/WiringLaws.antt =====
-- main.cpp, lines 338 to 450: the blocks form chains from the driver, and no queue has two readers.
use es_sensor.Prelude.{ℕ, ◌≡◌, refl, Bool, true, false, not, ◌&&◌, ◌||◌, List, [], ◌∷◌, ◌==◌}
use es_sensor.Context.{Context}
use es_sensor.Main.Wiring.{
  Block, driver, remove_dc, windowing, fft, averaging, psd_fast, iq_stream, remove_dc_rtl, avro,
  transmission, file_sink, iq_sink, Queue, out_of, out2_of_driver, Choices, choices, wire_choices,
  wire,
}

abbrev number : Block → ℕ
number driver = 0
number remove_dc = 1
number windowing = 2
number fft = 3
number averaging = 4
number psd_fast = 5
number iq_stream = 6
number remove_dc_rtl = 7
number avro = 8
number transmission = 9
number file_sink = 10
number iq_sink = 11

abbrev same_block : Block → Block → Bool
same_block a b = number a == number b

abbrev same_queue : Queue → Queue → Bool
same_queue (out_of a) (out_of b) = same_block a b
same_queue out2_of_driver out2_of_driver = true
same_queue _ _ = false

abbrev started : Block → List Block → Bool
started b [] = false
started b (a ∷ bs) = same_block b a || started b bs

abbrev read_by_none : Queue → List (Block × Queue) → Bool
read_by_none q [] = true
read_by_none q ((b, p) ∷ inputs) = not (same_queue q p) && read_by_none q inputs

-- Each queue has one reader at most, as its implementation demands.
abbrev pub single_readers : List (Block × Queue) → Bool
single_readers [] = true
single_readers ((b, q) ∷ inputs) = read_by_none q inputs && single_readers inputs

abbrev filled_by : Queue → Block
filled_by (out_of b) = b
filled_by out2_of_driver = driver

-- Each block that reads is started, and so is the block that fills its queue.
abbrev pub all_fed : List Block → List (Block × Queue) → Bool
all_fed started_blocks [] = true
all_fed started_blocks ((b, q) ∷ inputs) =
    started b started_blocks
    && started (filled_by q) started_blocks
    && all_fed started_blocks inputs

-- Each block except the driver has a queue to read.
abbrev reads : Block → List (Block × Queue) → Bool
reads b [] = false
reads b ((a, q) ∷ inputs) = same_block b a || reads b inputs

abbrev pub all_read : List Block → List (Block × Queue) → Bool
all_read [] inputs = true
all_read (b ∷ bs) inputs = (same_block b driver || reads b inputs) && all_read bs inputs

abbrev IsWired : Choices → Type 0
unfolding wire_choices
IsWired k =
    let w = wire_choices k in
    (single_readers w.inputs ≡ true)
    × (all_read w.components w.inputs ≡ true)
    × (all_fed w.components w.inputs ≡ not (not k.psd && not k.iq && k.has_tls_hosts))

wire_choices-IsWired :
    (psd iq dec tls file byte : Bool)
    → IsWired (record {
      psd = psd;
      iq = iq;
      dec = dec;
      has_tls_hosts = tls;
      has_output_file = file;
      byte_output = byte;
    })
unfolding IsWired
wire_choices-IsWired true iq dec true file byte = (refl, refl, refl)
wire_choices-IsWired true iq dec false true byte = (refl, refl, refl)
wire_choices-IsWired true iq dec false false byte = (refl, refl, refl)
wire_choices-IsWired false true dec true file byte = (refl, refl, refl)
wire_choices-IsWired false true dec false true true = (refl, refl, refl)
wire_choices-IsWired false true dec false true false = (refl, refl, refl)
wire_choices-IsWired false true dec false false byte = (refl, refl, refl)
wire_choices-IsWired false false true true file byte = (refl, refl, refl)
wire_choices-IsWired false false true false true byte = (refl, refl, refl)
wire_choices-IsWired false false true false false byte = (refl, refl, refl)
wire_choices-IsWired false false false true file byte = (refl, refl, refl)
wire_choices-IsWired false false false false true byte = (refl, refl, refl)
wire_choices-IsWired false false false false false byte = (refl, refl, refl)

-- In any configuration: every queue has at most one reader; every block that is started, other than
-- the driver, has its input queue set; and every queue that is read is filled by a started block,
-- except in one case: a pipeline other than PSD and IQ with a TLS host, where `Transmission` reads
-- the queue of a serialization block that is never started.
pub wire_lem :
    {F : Type 0} (c : Context F)
    → let w = wire c in
      let k = choices c in
      (single_readers w.inputs ≡ true)
      × (all_read w.components w.inputs ≡ true)
      × (all_fed w.components w.inputs ≡ not (not k.psd && not k.iq && k.has_tls_hosts))
unfolding wire IsWired
wire_lem c =
    let k = choices c in
    wire_choices-IsWired k.psd k.iq k.dec k.has_tls_hosts k.has_output_file k.byte_output
