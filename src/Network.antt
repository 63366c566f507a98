-- ===== src/Network.antt =====
-- MiscBlocks/Transmission.cpp, misc/TCP.cpp and misc/TLS.cpp: the segments go to a collector. The
-- sockets and OpenSSL are outside: an operation takes what their calls answer, in order.
pub mod Tcp
pub mod TcpLaws
pub mod Tls
pub mod Hosts
pub mod HostsLaws
pub mod Packets
pub mod PacketLaws
pub mod Transmission
pub mod Delivery
pub mod Setup
use es_sensor.Prelude.{List}

-- How a loop over the answers ends: with 0, with a negative value, or not before the answers end.
pub data Outcome : Type 0 where
  success : Outcome
  failure : Outcome
  waiting : Outcome
