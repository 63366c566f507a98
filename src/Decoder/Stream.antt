-- ===== src/Decoder/Stream.antt =====
-- MiscBlocks/IQStream.cpp: the loop that feeds the decoder, and the end of the block.
use es_sensor.Prelude.{
  ℕ, ◌*◌, Bool, true, false, not, Option, none, some, List, [], ◌∷◌, ◌++◌, leb, ◌==◌, if◌then◌else◌,
  length, take,
}
use es_sensor.Prelude.Int.{ℤ, pos, negsuc}
use es_sensor.Numeric.{Float, is_negative}
use es_sensor.Segment.{Segment}
use es_sensor.Sinks.Samples.{buffer_of}
use es_sensor.Filters.Downsampler.{Downsampler, downsample}
use es_sensor.Decoder.Messages.{message}

-- `for (i = 0; i < numSamples; i = i + 2)`: the bytes of the two channels; `none` reads behind the end.
unfoldable pub split_iq : List ℕ → Option (List ℕ × List ℕ)
split_iq [] = some ([], [])
split_iq (i ∷ []) = none
split_iq (i ∷ q ∷ rest) = elim (split_iq rest) [
  | none ↦ none
  | some (is, qs) ↦ some (i ∷ is, q ∷ qs)
]

-- The outputs of the two channels, taken in turn, as many as the first has; `none` reads bytes that an
-- earlier round has left.
unfoldable pub join_iq : List ℕ → List ℕ → Option (List ℕ)
join_iq [] qs = some []
join_iq (i ∷ is) [] = none
join_iq (i ∷ is) (q ∷ qs) = elim (join_iq is qs) [ none ↦ none | some rest ↦ some (i ∷ q ∷ rest) ]

-- What one turn of the loop meets: whether a client waits and what `accept` gives it, what the queue
-- gives, `mRunning` as read at its three places, the settings, and what `sendmsg` answers.
pub record Round (F : Type 0) : Type 0 where
  pub running : Bool
  pub client : Option ℤ
  pub segment : Option (Segment F)
  pub running_before_send : Bool
  pub running_after_send : Bool
  pub decoder : ℕ
  pub min_freq : ℕ
  pub gain_decoder : ℕ
  pub send_result : ℤ

-- `sent` is what has gone to the decoder.
pub record IqStream (F : Type 0) : Type 0 where
  pub socket_enable : Bool
  pub decoder_state : Bool
  pub ri : Downsampler F
  pub rq : Downsampler F
  pub sent : List ℕ

-- How a turn ends: with the next one, with `break`, or with the program (`error`, or a read or write
-- outside a buffer).
pub data Turn (F : Type 0) : Type 0 where
  goes_on : IqStream F → Turn F
  breaks : IqStream F → Turn F
  exits : Turn F

module _ {F : Type 0} ⦃float : Float F⦄ where
  -- The socket accepts one client.
  unfoldable pub accept_client : Option ℤ → IqStream F → Option (IqStream F)
  accept_client client s = if s.socket_enable then some s else elim client [
    | none ↦ some s
    | some fd ↦ if is_negative fd then none else some (record s { socket_enable = true })
  ]

  -- `sendmsg`, which takes as much as it answers, and what follows it.
  unfoldable pub send_iq : Round F → List ℕ → IqStream F → Turn F
  unfolding message
  send_iq r iq s =
      let bytes = message r.min_freq r.gain_decoder (length iq) iq in
      let failed : Turn F =
        if r.running_after_send then breaks (record s { decoder_state = false }) else goes_on s in
      elim (r.send_result) [
        | pos n ↦ goes_on (record s { sent = s.sent ++ take n bytes })
        | negsuc e ↦ failed
      ]

  unfoldable pub resample : List ℕ → IqStream F → Option (List ℕ × IqStream F)
  unfolding split_iq join_iq downsample
  resample buffer s =
      if leb (length buffer) 524_288
      then elim (split_iq buffer) [
        | none ↦ none
        | some (is, qs) ↦ elim (downsample s.ri is) [
          | none ↦ none
          | some (ri, out_i) ↦ elim (downsample s.rq qs) [
            | none ↦ none
            | some (rq, out_q) ↦
                if leb (length out_i * 2) 262_144
                then elim (join_iq out_i out_q) [
                  | none ↦ none
                  | some iq ↦ some (iq, record s { ri = ri; rq = rq })
                ]
                else none
          ]
        ]
      ]
      else none

  -- dump1090 gets the samples as they are.
  unfoldable pub deliver : Round F → Segment F → IqStream F → Turn F
  unfolding send_iq resample
  deliver r segment s =
      if r.decoder == 3
      then send_iq r (buffer_of segment) s
      else elim (resample (buffer_of segment) s) [ none ↦ exits | some (iq, s') ↦ send_iq r iq s' ]

  unfoldable pub turn : Round F → IqStream F → Turn F
  unfolding accept_client deliver
  turn r s = elim (accept_client r.client s) [
    | none ↦ exits
    | some s' ↦ elim r.segment [
      | none ↦ goes_on s'
      | some segment ↦
          if s'.socket_enable
          then if not r.running_before_send then breaks s' else deliver r segment s'
          else goes_on s'
    ]
  ]

  -- The loop over the turns; `none` is the end of the program.
  unfoldable pub iq_loop : List (Round F) → IqStream F → Option (IqStream F)
  unfolding turn
  iq_loop [] s = some s
  iq_loop (r ∷ rs) s =
      let rest : Option (IqStream F) = elim (turn r s) [
        | goes_on s' ↦ iq_loop rs s'
        | breaks s' ↦ some s'
        | exits ↦ none
      ] in
      if r.running then rest else some s

-- `stop`: what it does, if the block runs.
pub data Ending : Type 0 where
  terminate_child : Ending
  kill_child : Ending
  wait_child : Ending
  close_client : Ending
  join_thread : Ending

unfoldable pub stop_stream : Bool → Bool × List Ending
stop_stream running =
    if running
    then (false, terminate_child ∷ kill_child ∷ wait_child ∷ close_client ∷ join_thread ∷ [])
    else (running, [])
