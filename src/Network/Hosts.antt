-- ===== src/Network/Hosts.antt =====
-- MiscBlocks/Transmission.cpp, `parse_tls_hosts`: the collector's address and the key files.
use es_sensor.Prelude.{
  ℕ, zero, suc, ◌+◌, ◌-◌, Option, none, some, [], ◌==◌, if◌then◌else◌, Text, codes, text_eq, length,
  take, drop,
}
use es_sensor.Context.Split.{find_first_of}

pub data ConnectionType : Type 0 where
  tcp : ConnectionType
  tls : ConnectionType

pub record Hosts : Type 0 where
  pub host : Text
  pub port : Text
  pub ca_cert : Text
  pub cert : Text
  pub key : Text

-- `s.substr(start, n)`
unfoldable pub substr : Text → ℕ → ℕ → Text
substr s start n = take n (drop start s)

-- The first field, cut at its colon. Without one, `npos` selects all of it for both parts.
unfoldable pub parse_host : Text → Hosts → Hosts
unfolding find_first_of
parse_host field h = elim (find_first_of b':' field 0) [
  | none ↦ record h { host = field; port = field }
  | some end2 ↦ record h { host = take end2 field; port = drop (end2 + 1) field }
]

-- The body of the loop, at the separator at `end`.
unfoldable pub parse_field : ℕ → Text → ℕ → ℕ → Hosts → Hosts
unfolding parse_host substr
parse_field zero s start end h = parse_host (substr s start (end - start)) h
parse_field (suc zero) s start end h = record h { ca_cert = substr s start (end - start) }
parse_field (suc (suc zero)) s start end h = record h {
  cert = substr s start (end - start);
  key = substr s (end + 1) (length s - end);
}
parse_field _ s start end h = h

-- The `while` loop, on fuel.
unfoldable pub parse_loop : ℕ → ℕ → Text → ℕ → Option ℕ → Hosts → Hosts
unfolding parse_field
parse_loop fuel iter s start none h = h
parse_loop zero iter s start (some end) h = h
parse_loop (suc fuel) iter s start (some end) h =
    parse_loop fuel (iter + 1) s (end + 1) (find_first_of b'#' s (end + 1))
      (parse_field iter s start end h)

abbrev pub no_hosts : Hosts
no_hosts = record { host = []; port = []; ca_cert = []; cert = []; key = [] }

unfoldable pub connection_type : Hosts → ConnectionType
connection_type h = if length h.ca_cert == 0 then ConnectionType.tcp else ConnectionType.tls

-- `none` is the exception. The loop makes one round for each separator, so the length is enough fuel.
unfoldable pub parse_tls_hosts : Text → Option (Hosts × ConnectionType)
unfolding parse_loop connection_type
parse_tls_hosts s =
    if text_eq s (codes "0")
    then none
    else (let h = parse_loop (length s) 0 s 0 (find_first_of b'#' s 0) no_hosts in
        some (h, connection_type h))
