-- ===== src/Decoder/Programs.antt =====
-- MiscBlocks/IQStream.cpp, `run`: which program decodes, and how the samples are resampled for it.
use es_sensor.Prelude.{
  ℕ, Bool, true, Option, none, some, List, [], ◌∷◌, ◌==◌, if◌then◌else◌, Text, codes, get_elem?,
}
use es_sensor.Numeric.{Float, sub32}

-- What `execl` is called with: the file and the arguments. No decoder with another number is started.
unfoldable pub decoder_program : ℕ → Option (Text × List Text)
decoder_program decoder =
    if decoder == 1
    then some (
      codes "/usr/share/electrosense/decoders/radio.py",
      codes "radio.py" ∷ codes "fm" ∷ codes "240000" ∷ [],
    )
    else if decoder == 2
    then some (
      codes "/usr/share/electrosense/decoders/radio.py",
      codes "radio.py" ∷ codes "am" ∷ codes "60000" ∷ [],
    )
    else if decoder == 3
    then some (
      codes "/usr/share/electrosense/decoders/dump1090",
      codes "dump1090" ∷ codes "--esense" ∷ codes "/tmp/socket" ∷ [],
    )
    else if decoder == 4
    then some (codes "/usr/share/electrosense/decoders/ais_decoder", codes "ais_decoder" ∷ [])
    else if decoder == 5
    then some (
      codes "/usr/share/electrosense/decoders/acarsdec.rtl",
      codes "acarsdec.rtl" ∷ codes "-e" ∷ codes "/tmp/socket" ∷ [],
    )
    else if decoder == 6
    then some (codes "/usr/share/electrosense/decoders/CellSearch", codes "CellSearch" ∷ [])
    else none

-- `ResamplerConfig`
pub record ResamplerConfig (F : Type 0) : Type 0 where
  pub rational : Bool
  pub input_rate : F
  pub output_rate : F
  pub max_interpolation : ℕ
  pub cic_order : ℕ
  pub cic_oversample_factor : ℕ
  pub desired_ripple : F
  pub transition_width_fraction : F
  pub cutoff_fraction : F

-- The tables, one entry for each decoder; the output rates are in Hz.
abbrev pub fs_output : List ℕ
fs_output = 240_000 ∷ 60_000 ∷ 2_400_000 ∷ 1_600_000 ∷ 2_000_000 ∷ 1_920_000 ∷ []

abbrev pub ripple : List ℕ
ripple = 40 ∷ 40 ∷ 40 ∷ 40 ∷ 40 ∷ 40 ∷ []

-- In tenths, and in hundredths.
abbrev pub transition : List ℕ
transition = 1 ∷ 2 ∷ 2 ∷ 2 ∷ 2 ∷ 2 ∷ []

abbrev pub cutoff : List ℕ
cutoff = 40 ∷ 25 ∷ 20 ∷ 20 ∷ 20 ∷ 20 ∷ []

module _ {F : Type 0} ⦃float : Float F⦄ where
  abbrev pub settings : F → F → F → F → ResamplerConfig F
  settings output_rate desired_ripple transition_width_fraction cutoff_fraction = record {
    rational = true;
    input_rate = float.of_nat 2_400_000;
    output_rate = output_rate;
    max_interpolation = 32;
    cic_order = 6;
    cic_oversample_factor = 4;
    desired_ripple = desired_ripple;
    transition_width_fraction = transition_width_fraction;
    cutoff_fraction = cutoff_fraction;
  }

  -- `none` is a read behind the end of the tables. Without a decoder the cut-off is the default.
  unfoldable pub resampler_config : ℕ → Option (ResamplerConfig F)
  resampler_config decoder =
      if decoder == 0
      then some (
          settings (float.of_nat 6000) (float.neg (float.of_nat 40)) (float.lit 2 10)
            (float.lit 3 10))
      else elim (get_elem? fs_output (sub32 decoder 1)) [
        | none ↦ none
        | some rate ↦ elim (get_elem? ripple (sub32 decoder 1)) [
          | none ↦ none
          | some r ↦ elim (get_elem? transition (sub32 decoder 1)) [
            | none ↦ none
            | some t ↦ elim (get_elem? cutoff (sub32 decoder 1)) [
              | none ↦ none
              | some c ↦ some (
                  settings (float.of_nat rate) (float.neg (float.of_nat r)) (float.lit t 10)
                    (float.lit c 100))
            ]
          ]
        ]
      ]
