-- ===== src/Shutdown/Iq.antt =====
-- main.cpp, the IQ pipeline into a file of numbers: RemoveDCRTL and IQSink, both of which drain their
-- queues.
use es_sensor.Prelude.{
  ◌+◌, length, ◌≡◌, refl, ap, ◌∙◌, ℕ, Bool, true, false, List, [], ◌∷◌, ◌++◌, map, ◌%◌, ◌^◌, ◌<◌,
}
use es_sensor.Numeric.{Float}
use es_sensor.Context.{output_type_float}
use es_sensor.Segment.{Segment}
use es_sensor.Blocks.{Block, final, outputs, outputs-map}
use es_sensor.Blocks.RemoveDc.{remove_dc_rtl_one, remove_dc_rtl_step}
use es_sensor.Sinks.Samples.{SampleFile, write_samples, write_all, all_floats, write_all_lem}
use es_sensor.Shutdown.{Chain, out, stage, System, Reach, IsFresh, all_ended}
use es_sensor.Shutdown.Results.{finish_ok-results}

module _ {F : Type 0} ⦃float : Float F⦄ where
  -- The body of IQSink's loop.
  unfoldable pub iq_sink_step : ℕ → Block (SampleFile F) (Segment F) (Segment F)
  iq_sink_step output_type f s = (write_samples output_type s f, [])

  -- The two blocks, with a file that was `start` at first and is `file` now.
  abbrev pub iq_blocks : ℕ → Bool → Bool → SampleFile F → SampleFile F → Chain (Segment F)
  iq_blocks output_type running ended start file =
      stage
        (record {
          S = Unit {0};
          step = remove_dc_rtl_step;
          drains = true;
          start = tt;
          state = tt;
          queue = [];
          running = running;
          ended = ended;
        })
        (stage
          (record {
            S = SampleFile F;
            step = iq_sink_step output_type;
            drains = true;
            start = start;
            state = file;
            queue = [];
            running = running;
            ended = ended;
          })
          (out []))

  abbrev pub iq_pipeline : SampleFile F → Chain (Segment F)
  iq_pipeline file = iq_blocks output_type_float true false file file

  pub iq_pipeline-IsFresh : (file : SampleFile F) → IsFresh (iq_pipeline file)
  iq_pipeline-IsFresh file = (refl, refl, refl, refl, (refl, refl, refl, refl, refl))

  iq_sink-final :
      (output_type : ℕ) (f : SampleFile F) (xs : List (Segment F))
      → final (iq_sink_step output_type) f xs ≡ write_all output_type xs f
  unfolding final iq_sink_step write_all
  iq_sink-final output_type f [] = refl
  iq_sink-final output_type f (x ∷ xs) =
      iq_sink-final output_type (write_samples output_type x f) xs

  iq_sink-outputs :
      (output_type : ℕ) (f : SampleFile F) (xs : List (Segment F))
      → outputs (iq_sink_step output_type) f xs ≡ []
  unfolding outputs iq_sink_step
  iq_sink-outputs output_type f [] = refl
  iq_sink-outputs output_type f (x ∷ xs) =
      iq_sink-outputs output_type (write_samples output_type x f) xs

  remove_dc_rtl-map :
      (xs : List (Segment F)) → outputs remove_dc_rtl_step tt xs ≡ map remove_dc_rtl_one xs
  unfolding remove_dc_rtl_step
  remove_dc_rtl-map = outputs-map remove_dc_rtl_step remove_dc_rtl_one tt (λ x. refl)

  -- In whatever order the threads run: once `finish_ok` has stopped and joined both blocks, behind what
  -- stood in the file stand the samples of all segments that the receiver has ever received, with the
  -- offset removed, in order; their number has been added to the 32 bits of the count modulo 2 ^ 32,
  -- and no queue holds anything.
  pub finish_ok-iq_pipeline :
      (file : SampleFile F) (s : System (Segment F))
      → Reach (iq_pipeline file) s
      → all_ended s.chain ≡ true
      → file.samples < 2 ^ 32
      → let numbers = all_floats (map remove_dc_rtl_one s.received) in
        s.chain
        ≡ iq_blocks output_type_float false true file (record file {
          floats = file.floats ++ numbers;
          samples = (file.samples + length numbers) % 2 ^ 32;
        })
  finish_ok-iq_pipeline file s r done small =
      let xs = map remove_dc_rtl_one s.received in
      let passed = remove_dc_rtl-map s.received in
      let at_end : final (iq_sink_step output_type_float) file
            (outputs remove_dc_rtl_step tt s.received)
          ≡ record file {
            floats = file.floats ++ all_floats xs;
            samples = (file.samples + length (all_floats xs)) % 2 ^ 32;
          } =
        ap (final (iq_sink_step output_type_float) file) passed
        ∙ iq_sink-final output_type_float file xs
        ∙ (write_all_lem xs file small).1 in
      finish_ok-results (iq_pipeline file) s (iq_pipeline-IsFresh file) refl r done ∙ (λ i.
        stage
          (record {
            S = Unit {0};
            step = remove_dc_rtl_step;
            drains = true;
            start = tt;
            state = tt;
            queue = [];
            running = false;
            ended = true;
          })
          (stage
            (record {
              S = SampleFile F;
              step = iq_sink_step output_type_float;
              drains = true;
              start = file;
              state = at_end i;
              queue = [];
              running = false;
              ended = true;
            })
            (out (
              iq_sink-outputs output_type_float file (outputs remove_dc_rtl_step tt s.received)
                i))))
