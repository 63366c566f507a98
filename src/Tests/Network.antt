-- ===== src/Tests/Network.antt =====
-- Runs on MiscBlocks/Transmission.cpp, misc/TCP.cpp and misc/TLS.cpp.
use es_sensor.Prelude.{
  ℕ, ◌≡◌, ◌≢◌, ◌↔◌, refl, true, false, some, List, [], ◌∷◌, ◌++◌, arith, codes, text_eq, leb, ltb,
}
use es_sensor.Prelude.Int.{ℤ, pos, negsuc}
use es_sensor.Numeric.{fixed_float}
use es_sensor.Network.{Outcome, success}
use es_sensor.Network.Tcp.{tcp_write}
use es_sensor.Network.TcpLaws.{tcp_write-whole}
use es_sensor.Network.Setup.{InitAnswers, tls_init}
use es_sensor.Network.Hosts.{Hosts, connection_type, parse_tls_hosts, tls}
use es_sensor.Network.HostsLaws.{tls_hosts, parse_tls_hosts-tls_hosts}
use es_sensor.Network.Packets.{no_packet}
use es_sensor.Network.PacketLaws.{frames, read_packets, read_packets-frames}
use es_sensor.Network.Transmission.{Transmitter, new_transmitter, transmit_all}
use es_sensor.Network.Delivery.{transmit_all-read_packets}
use es_sensor.Tests.Data.{config, segment_at}

abbrev message : List ℕ
message = 1 ∷ 2 ∷ 3 ∷ []

-- Two bytes are taken, then the last one; the third answer is not needed.
abbrev write_answers : List ℤ
write_answers = pos 2 ∷ pos 1 ∷ negsuc 0 ∷ []

tcp_write-whole_example : tcp_write write_answers message 0 ≡ (success, message)
tcp_write-whole_example =
    tcp_write-whole write_answers message
      (omega arith, omega arith, λ _. (omega arith, omega arith, λ h. absurd (omega arith)))
      (omega arith) (omega arith)

abbrev server : Hosts
server = record { host = 1 ∷ []; port = 2 ∷ []; ca_cert = 3 ∷ []; cert = 4 ∷ []; key = 5 ∷ [] }

small : (x : ℕ) → leb x 34 ≡ true → x ≢ b'#'
small x h = ground arith

above : (x y : ℕ) → ltb y x ≡ true → x ≢ y
above x y h = ground arith

below : (x y : ℕ) → ltb x y ≡ true → x ≢ y
below x y h = ground arith

parse_tls_hosts-tls_hosts_example :
    (parse_tls_hosts (tls_hosts server) ≡ some (server, connection_type server))
    × ((connection_type server ≡ tls) ↔ (server.ca_cert ≢ []))
parse_tls_hosts-tls_hosts_example =
    parse_tls_hosts-tls_hosts server (below 1 b':' refl, tt)
      (small 1 refl, (above b':' b'#' refl, (small 2 refl, tt))) (small 3 refl, tt)
      (small 4 refl, tt) (small 5 refl, tt)

abbrev two_buffers : List (List ℕ)
two_buffers = (7 ∷ 8 ∷ 9 ∷ 10 ∷ 11 ∷ []) ∷ (7 ∷ 8 ∷ 9 ∷ 10 ∷ 11 ∷ []) ∷ []

read_packets-frames_example :
    (stream : List ℕ) × (frames true 5 two_buffers no_packet ≡ some stream)
    × (read_packets true 2 (stream ++ (1 ∷ [])) ≡ some (two_buffers, 1 ∷ []))
read_packets-frames_example =
    read_packets-frames true 5 two_buffers (1 ∷ [])
      ((omega arith, omega arith), ((omega arith, omega arith), tt))

abbrev whole_write : List ℕ → Outcome × List ℕ
whole_write p = (success, p)

goes_through : (p : List ℕ) → whole_write p ≡ (success, p)
goes_through p = refl

transmit_all-read_packets_example :
    (t : Transmitter) × (transmit_all config whole_write
        (segment_at 5 ∷ segment_at 6 ∷ [])
        new_transmitter
      ≡ some t)
    × (t.running ≡ true)
    × (read_packets (text_eq (codes "PSD") (codes "PSD")) 2 t.output ≡ some (two_buffers, []))
transmit_all-read_packets_example =
    transmit_all-read_packets config whole_write (segment_at 5 ∷ segment_at 6 ∷ []) two_buffers
      goes_through (refl, (refl, tt)) ((omega arith, omega arith), ((omega arith, omega arith), tt))

-- A client whose private key does not fit its certificate.
abbrev client : InitAnswers
client = record {
  server_mode = false;
  hostaddr = codes "collector";
  socket_result = pos 3;
  host_found = true;
  has_context = true;
  certificate_result = pos 1;
  key_result = pos 1;
  check_result = pos 0;
  ca_result = pos 1;
}

tls_init_run : tls_init client ≡ negsuc 4
unfolding tls_init
tls_init_run = refl
