-- ===== src/Tests/Shutdown.antt =====
-- Runs on the threads of the IQ pipeline and their shutdown.
use es_sensor.Prelude.{◌≡◌, ◌%◌, ◌^◌, arith, refl, true, false, [], ◌∷◌, ◌+◌, map, length}
use es_sensor.Numeric.{Fixed, fixed_float}
use es_sensor.Context.{output_type_float}
use es_sensor.Segment.{Segment}
use es_sensor.Blocks.RemoveDc.{remove_dc_rtl_one, remove_dc_rtl_step}
use es_sensor.Sinks.Samples.{SampleFile, all_floats}
use es_sensor.Shutdown.{
  Chain, round, finish, stop, further, System, Step, receive, stop_receiver, end_receiver, work,
  init, Reach, begin, later, all_ended,
}
use es_sensor.Shutdown.Results.{Held, results, Reach-Held, finish_ok-results}
use es_sensor.Shutdown.Ending.{Run, finish_ok-ends}
use es_sensor.Shutdown.Iq.{iq_blocks, iq_pipeline, iq_pipeline-IsFresh, finish_ok-iq_pipeline}
use es_sensor.Tests.Data.{segment_at}

abbrev old_file : SampleFile Fixed
old_file = record { bytes = []; floats = 600 ∷ []; samples = 1 }

abbrev pipeline : Chain (Segment Fixed)
pipeline = iq_pipeline old_file

abbrev IqSystem : Type 1
IqSystem = (s : System (Segment Fixed)) × Reach pipeline s

abbrev step : (a : IqSystem) {t : System (Segment Fixed)} → Step a.0 t → IqSystem
step (s, r) {t} st = (t, later r st)

-- A segment is received, the receiver stops, and RemoveDCRTL is stopped before it has begun.
abbrev stopped : IqSystem
stopped =
    step
      (step (step (step (init pipeline, begin) (receive (segment_at 5) refl)) stop_receiver)
        end_receiver)
      (work (stop _ _ refl))

-- RemoveDCRTL still works on the segment, then IQSink is stopped, and does so too.
unfoldable all_stopped : IqSystem
unfolding remove_dc_rtl_step
all_stopped =
    step
      (step
        (step (step (step stopped (work (round _ _ _ _ refl refl refl))) (work (finish _ _ refl)))
          (work (further _ (stop _ _ refl))))
        (work (further _ (round _ _ _ _ refl refl refl))))
      (work (further _ (finish _ _ refl)))

Reach-Held_example : Held pipeline stopped.0
Reach-Held_example = Reach-Held (iq_pipeline-IsFresh old_file) stopped.1

finish_ok-results_example : all_stopped.0.chain ≡ results all_stopped.0.received pipeline
unfolding all_stopped remove_dc_rtl_step
finish_ok-results_example =
    finish_ok-results pipeline all_stopped.0 (iq_pipeline-IsFresh old_file) refl all_stopped.1 refl

finish_ok-ends_example :
    (t : System (Segment Fixed)) × Run stopped.0 t
    × (t.received ≡ stopped.0.received)
    × (all_ended t.chain ≡ true)
finish_ok-ends_example = finish_ok-ends stopped.0

finish_ok-iq_pipeline_example :
    let numbers = all_floats (map remove_dc_rtl_one (segment_at 5 ∷ [])) in
    all_stopped.0.chain
    ≡ iq_blocks output_type_float false true old_file
        (record old_file { floats = 600 ∷ numbers; samples = (1 + length numbers) % 2 ^ 32 })
unfolding all_stopped remove_dc_rtl_step
finish_ok-iq_pipeline_example =
    finish_ok-iq_pipeline old_file all_stopped.0 all_stopped.1 refl (omega arith)
