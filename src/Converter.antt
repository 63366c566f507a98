-- ===== src/Converter.antt =====
-- drivers/rtlsdr/converter/converter.c: the frequency converter on its serial port, to which commands
-- are written and whose replies are read. The port is outside: what its calls answer is given in order.
pub mod Reply
pub mod Decimal
pub mod Commands
pub mod CommandLaws
pub mod InitLaws
pub mod TuneLaws
pub mod Proxy
pub mod ProxyLaws
use es_sensor.Prelude.{ℕ, Option, List, Text}
use es_sensor.Prelude.Int.{ℤ}

-- What one `poll`, and the `read` behind it, answers: nothing within 250 ms, an error of `poll`, an
-- event without data, and data that is read, or whose reading fails with a result of 0 or below.
pub data Polled : Type 0 where
  timeout : Polled
  poll_error : Polled
  no_data : Polled
  read_error : ℤ → Polled
  received : ℕ → Text → Polled

-- The answers that `write` and `poll` have still to give, and all bytes that were written.
pub record Port : Type 0 where
  pub writes : List ℤ
  pub polls : List Polled
  pub sent : Text
