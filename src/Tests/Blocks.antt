-- ===== src/Tests/Blocks.antt =====
-- Runs on the blocks of the PSD pipeline.
use es_sensor.Prelude.{◌≡◌, refl, some, List, [], ◌∷◌, ◌++◌, arith, map, take, drop}
use es_sensor.Numeric.{Fixed, fixed_float}
use es_sensor.Segment.{Segment}
use es_sensor.Queue.{ReaderWriterQueue, list_queue}
use es_sensor.Blocks.{outputs, final}
use es_sensor.Blocks.Loop.{Thread, drain, drain-total}
use es_sensor.Blocks.RemoveDc.{remove_dc_rtl_step}
use es_sensor.Blocks.Fft.{fft_step, compute_one}
use es_sensor.Blocks.FftBatches.{whole, fft-batches}
use es_sensor.Blocks.Averaging.{averaging_step, wrong_cf}
use es_sensor.Blocks.AveragingGroups.{averaging_stuck}
use es_sensor.Tests.Data.{same_signal, no_shift, segment_at}

abbrev two : List (Segment Fixed)
two = segment_at 5 ∷ segment_at 5 ∷ []

abbrev mixed : List (Segment Fixed)
mixed = segment_at 5 ∷ segment_at 6 ∷ []

abbrev segments : ReaderWriterQueue (Segment Fixed)
segments = list_queue (Segment Fixed)

abbrev thread : Thread segments segments remove_dc_rtl_step
thread = record { state = tt; queue_in = two; queue_out = mixed }

drain-total_example :
    (u : Thread segments segments remove_dc_rtl_step) × (drain segments segments remove_dc_rtl_step
        3 thread
      ≡ some u)
    × (u.queue_in ≡ [])
    × (u.state ≡ final remove_dc_rtl_step tt two)
    × (u.queue_out ≡ mixed ++ outputs remove_dc_rtl_step tt two)
drain-total_example =
    drain-total segments segments remove_dc_rtl_step 3 thread two refl (omega arith)

fft-batches_example :
    let k = whole 2 3 in
    let step = fft_step same_signal no_shift 2 4 in
    let xs = segment_at 1 ∷ two in
    (outputs step [] xs ≡ map (compute_one same_signal no_shift 4) (take k xs))
    × (final step [] xs ≡ drop k xs)
fft-batches_example = fft-batches same_signal no_shift 2 4 (omega arith) (segment_at 1 ∷ two)

averaging_stuck_example : outputs (averaging_step 2 4) [] (mixed ++ two) ≡ []
averaging_stuck_example = averaging_stuck 2 4 mixed two (omega arith) refl (unfold wrong_cf in refl)
