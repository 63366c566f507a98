-- ===== src/Sinks/Avro.antt =====
-- MiscBlocks/AvroSerialization.cpp, `PSD`: which of a segment's values are sent.
use es_sensor.Prelude.{
  ℕ, zero, suc, ◌+◌, ◌-◌, ◌/◌, ◌%◌, ◌^◌, ◌≤◌, ◌<◌, ◌≡◌, refl, Option, none, some, List, [], ◌∷◌,
  arith, length, get_elem?, take, drop, map, All, ap, ◌∙◌, sym,
}
use mathlib.Core.Path.{subst}
use es_sensor.Numeric.{sub32}
use es_sensor.Segment.{Segment}
use es_sensor.Context.{make_odd}

module _ {F : Type 0} where
  -- The values from `l` on are appended one by one; `none` is a read behind the vector's end.
  unfoldable pub read_bins : ℕ → ℕ → List F → Option (List F)
  read_bins l zero values = some []
  read_bins l (suc n) values = elim (get_elem? values l) [
    | none ↦ none
    | some s ↦ elim (read_bins (suc l) n values) [ none ↦ none | some bins ↦ some (s ∷ bins) ]
  ]

  unfoldable pub bins_of : ℕ → ℕ → Segment F → Option (List F)
  unfolding read_bins
  bins_of fft_size reduced segment =
      read_bins (sub32 fft_size reduced / 2) reduced segment.psd_values

  abbrev prepend : Option (List F) → Option (List (List F)) → Option (List (List F))
  prepend none sent = none
  prepend (some bins) none = none
  prepend (some bins) (some sent) = some (bins ∷ sent)

  -- The loop over the segments. `reduced_fft_size` is kept from one to the next.
  unfoldable pub send_bins : ℕ → ℕ → List (Segment F) → Option (List (List F))
  unfolding bins_of
  send_bins fft_size reduced_fft_size [] = some []
  send_bins fft_size reduced_fft_size (segment ∷ segments) =
      let reduced = make_odd reduced_fft_size in
      prepend (bins_of fft_size reduced segment) (send_bins fft_size reduced segments)

  -- The `n` values of a segment from `l` on.
  abbrev pub window : ℕ → ℕ → Segment F → List F
  window l n segment = take n (drop l segment.psd_values)

  split_at :
      (l : ℕ) (values : List F)
      → l < length values
      → (s : F) × (get_elem? values l ≡ some s) × (drop l values ≡ s ∷ drop (suc l) values)
  split_at l [] h = absurd (omega arith)
  split_at zero (x ∷ values) h = (x, refl, refl)
  split_at (suc l) (x ∷ values) h = split_at l values (omega arith)

  read_bins-take :
      (l n : ℕ) (values : List F)
      → l + n ≤ length values
      → read_bins l n values ≡ some (take n (drop l values))
  unfolding read_bins
  read_bins-take l zero values h = refl
  read_bins-take l (suc n) values h =
      let (s, found, cut) = split_at l values (omega arith) in
      rw (read_bins, found, read_bins-take (suc l) n values (omega arith), cut) refl

pub make_odd-IsOdd : (n : ℕ) → n < 2 ^ 32 → make_odd n % 2 ≡ 1
make_odd-IsOdd n h = ground arith

make_odd_le : (n : ℕ) → n < 2 ^ 32 → n ≤ make_odd n
make_odd_le n h = ground arith

make_odd_ge : (n : ℕ) → make_odd n ≤ n + 1
make_odd_ge n = ground arith

pub make_odd-again : (n : ℕ) → n % 2 ≡ 1 → make_odd n ≡ n
make_odd-again n h = ground arith

sub32_le : (a b : ℕ) → b ≤ a → a < 2 ^ 32 → sub32 a b ≡ a - b
sub32_le a b h small = ground arith

module _ {F : Type 0} where
  pub bins_of-window :
      (fft_size n : ℕ) (s : Segment F)
      → n ≤ fft_size
      → fft_size < 2 ^ 32
      → length s.psd_values ≡ fft_size
      → bins_of fft_size n s ≡ some (window ((fft_size - n) / 2) n s)
  unfolding bins_of
  bins_of-window fft_size n s le small size =
      ap (λ d. read_bins (d / 2) n s.psd_values) (sub32_le fft_size n le small)
      ∙ read_bins-take ((fft_size - n) / 2) n s.psd_values (omega arith)

  send_odd :
      (fft_size n : ℕ) (segments : List (Segment F))
      → n % 2 ≡ 1
      → n ≤ fft_size
      → fft_size < 2 ^ 32
      → All (λ (s : Segment F). length s.psd_values ≡ fft_size) segments
      → send_bins fft_size n segments ≡ some (map (window ((fft_size - n) / 2) n) segments)
  unfolding send_bins
  send_odd fft_size n [] odd le small sizes = refl
  send_odd fft_size n (s ∷ segments) odd le small (size, sizes) =
      let here : bins_of fft_size n s ≡ some (window ((fft_size - n) / 2) n s) =
        bins_of-window fft_size n s le small size in
      let rest = send_odd fft_size n segments odd le small sizes in
      subst
        (λ k.
          prepend (bins_of fft_size k s) (send_bins fft_size k segments)
          ≡ some (map (window ((fft_size - n) / 2) n) (s ∷ segments)))
        (sym (make_odd-again n odd))
        (ap (λ o. prepend o (send_bins fft_size n segments)) here
          ∙ ap (prepend (some (window ((fft_size - n) / 2) n s))) rest)

  -- The first segment makes the size odd, the others find it so.
  send_first :
      (fft_size reduced : ℕ) (segments : List (Segment F))
      → make_odd reduced % 2 ≡ 1
      → send_bins fft_size reduced segments ≡ send_bins fft_size (make_odd reduced) segments
  unfolding send_bins
  send_first fft_size reduced [] odd = refl
  send_first fft_size reduced (s ∷ segments) odd =
      ap (λ k. prepend (bins_of fft_size k s) (send_bins fft_size k segments))
        (sym (make_odd-again (make_odd reduced) odd))

  -- Where the reduced size, made odd, is at most the FFT size, and each segment has as many values
  -- as the FFT size: no value is read behind a segment's end, and from each segment the same window
  -- of an odd number of values is sent, in order; with an even FFT size there is one value less on
  -- the window's left than on its right.
  pub send_bins-window :
      (fft_size reduced : ℕ) (segments : List (Segment F))
      → reduced < 2 ^ 32
      → make_odd reduced ≤ fft_size
      → fft_size < 2 ^ 32
      → All (λ (s : Segment F). length s.psd_values ≡ fft_size) segments
      → (n l : ℕ) × (n % 2 ≡ 1)
        × (reduced ≤ n)
        × (n ≤ reduced + 1)
        × (l + n ≤ fft_size)
        × (fft_size % 2 ≡ 0 → l + n + (l + 1) ≡ fft_size)
        × (send_bins fft_size reduced segments ≡ some (map (window l n) segments))
  send_bins-window fft_size reduced segments bound le small sizes =
      let odd = make_odd-IsOdd reduced bound in
      let n = make_odd reduced in
      (
        n,
        (fft_size - n) / 2,
        odd,
        make_odd_le reduced bound,
        make_odd_ge reduced,
        omega arith,
        λ even. omega arith,
        send_first fft_size reduced segments odd ∙ send_odd fft_size n segments odd le small sizes,
      )
