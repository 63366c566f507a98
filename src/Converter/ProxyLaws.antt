-- ===== src/Converter/ProxyLaws.antt =====
-- drivers/rtlsdr/converter/rtlsdr_proxy.c against the receiver's own way of tuning by the converter.
use es_sensor.Prelude.{
  ℕ, zero, suc, ◌-◌, ◌*◌, ◌/◌, ◌%◌, ◌^◌, ◌≡◌, refl, ap, ◌∙◌, sym, Bool, true, false, Option, none,
  some, List, [], ◌∷◌, ◌++◌, ◌==◌, if◌then◌else◌, Bool-cases, arith, inl, inr,
}
use mathlib.Core.List.{append-nil}
use es_sensor.Prelude.Int.{ℤ, negsuc}
use es_sensor.Numeric.{is_zero}
use es_sensor.Receiver.{Command, tune_converter, set_center_freq, reset_buffer, Answers, Sampling}
use es_sensor.Receiver.Tune.{Tuned, failed, skip, tuned, command, tune_by_converter, set_center}
use es_sensor.Receiver.Cut.{invert}
use es_sensor.Converter.Proxy.{Proxy, set_center_freq64, invert_spectrum, proxy_buffer}

-- The commands that tune the converter or the dongle.
abbrev is_tuning : Command → Bool
is_tuning (tune_converter f) = true
is_tuning (set_center_freq f) = true
is_tuning _ = false

abbrev pub tunings : List Command → List Command
tunings [] = []
tunings (k ∷ ks) = if is_tuning k then k ∷ tunings ks else tunings ks

tunings-append : (ks ls : List Command) → tunings (ks ++ ls) ≡ tunings ks ++ tunings ls
tunings-append [] ls = refl
tunings-append (k ∷ ks) ls = elim (Bool-cases (is_tuning k)) [
  | inl e ↦ rw (e, tunings-append ks ls) refl
  | inr e ↦ rw (e, tunings-append ks ls) refl
]

snoc_both :
    (ks ls : List Command) (k : Command)
    → tunings ks ≡ tunings ls
    → tunings (ks ++ (k ∷ [])) ≡ tunings (ls ++ (k ∷ []))
snoc_both ks ls k e =
    tunings-append ks (k ∷ [])
    ∙ ap (λ (l : List Command). l ++ tunings (k ∷ [])) e
    ∙ sym (tunings-append ls (k ∷ []))

invert_spectrum-invert : (n : ℕ) (buf : List ℕ) → invert_spectrum n buf ≡ invert n buf
unfolding invert_spectrum invert
invert_spectrum-invert zero buf = refl
invert_spectrum-invert (suc n) [] = refl
invert_spectrum-invert (suc zero) (x ∷ buf) = refl
invert_spectrum-invert (suc (suc n)) (x ∷ []) = refl
invert_spectrum-invert (suc (suc n)) (x ∷ y ∷ buf) =
    ap (λ l. (255 - x) ∷ y ∷ l) (invert_spectrum-invert n buf)

module _ {F : Type 0} where
  -- The receiver and the proxy remember the same, and have given the same commands for tuning.
  pub record Alike (s : Sampling F) (p : Proxy) : Type 0 where
    pub proxy_freq : s.previous_proxy_freq ≡ p.current_rtl_freq
    pub given : tunings s.commands ≡ tunings p.commands

  -- After tuning: besides, both invert the spectrum or neither does.
  abbrev pub Matches : Option (ℕ × Bool) → Tuned F → ℤ × Proxy → Type 0
  Matches o failed (result, p) = (o ≡ none) × (result ≡ negsuc 0)
  Matches o (skip s) (result, p) =
      Alike s p × (s.must_invert ≡ p.use_inversion) × (is_zero result ≡ false)
  Matches o (tuned s) (result, p) =
      Alike s p × (s.must_invert ≡ p.use_inversion) × (is_zero result ≡ true)

  reply_after :
      (a : Answers) (freq : ℕ) (s : Sampling F) (p : Proxy) (o : Option (ℕ × Bool))
      → Alike s p
      → Matches o
          (elim o [
            | none ↦ failed
            | some (proxy, inverted) ↦
                let s = record (command (tune_converter (freq / 1000)) s) {
                  must_invert = inverted;
                } in
                if s.previous_proxy_freq == proxy
                then tuned s
                else set_center a (proxy * 1000) (record s { previous_proxy_freq = proxy })
          ])
          (set_center_freq64 o a.center_result freq p)
  unfolding set_center_freq64 set_center
  reply_after a freq s p none alike = (refl, refl)
  reply_after a freq s p (some (proxy, inverted)) alike =
      let given = snoc_both s.commands p.commands (tune_converter (freq / 1000)) alike.given in
      elim (Bool-cases (s.previous_proxy_freq == proxy)) [
        | inl same ↦
            let same' : (proxy == p.current_rtl_freq) ≡ true = ground arith in
            rw (same, same') (record { proxy_freq = alike.proxy_freq; given = given }, refl, refl)
        | inr other ↦
            let other' : (proxy == p.current_rtl_freq) ≡ false = ground arith in
            let center = set_center_freq (proxy * 1000 % 2 ^ 32) in
            let asked = tune_converter (freq / 1000) ∷ [] in
            let given' = snoc_both (s.commands ++ asked) (p.commands ++ asked) center given in
            elim (Bool-cases (is_zero a.center_result)) [
              | inl set ↦
                  rw (other, other', set)
                    (
                      record {
                        proxy_freq = refl;
                        given =
                            tunings-append (s.commands ++ asked ++ (center ∷ []))
                              (reset_buffer ∷ [])
                            ∙ append-nil _
                            ∙ given';
                      },
                      refl,
                      set,
                    )
              | inr not_set ↦
                  rw (other, other', not_set)
                    (record { proxy_freq = refl; given = given' }, refl, not_set)
            ]
      ]

  -- The proxy's way of tuning is the receiver's own: from states that agree, the same commands for
  -- tuning are given and the same is remembered; the receiver fails, skips the round or goes on exactly
  -- as the proxy's result says; and a buffer is inverted in the same way.
  pub set_center_freq64-tune_by_converter :
      (a : Answers) (freq : ℕ) (s : Sampling F) (p : Proxy) (n_read : ℕ) (buf : List ℕ)
      → Alike s p
      → Matches a.converter_tune
          (tune_by_converter a freq s)
          (set_center_freq64 a.converter_tune a.center_result freq p)
        × (proxy_buffer p n_read buf ≡ (if p.use_inversion then invert n_read buf else buf))
  unfolding tune_by_converter proxy_buffer
  set_center_freq64-tune_by_converter a freq s p n_read buf alike = (
    reply_after a freq s p a.converter_tune alike,
    ap (λ l. if p.use_inversion then l else buf) (invert_spectrum-invert n_read buf),
  )
