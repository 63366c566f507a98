-- ===== src/Network/Setup.antt =====
-- misc/TCP.cpp and misc/TLS.cpp: connections are set up and closed, over what the system's and
-- OpenSSL's calls answer.
use es_sensor.Prelude.{
  ℕ, ◌≡◌, refl, ◌↔◌, Bool, true, false, not, ◌&&◌, ◌||◌, Option, none, some, List, if◌then◌else◌,
  Text, All, [], ◌∷◌,
}
use es_sensor.Prelude.Int.{ℤ, pos, negsuc}
use es_sensor.Numeric.{is_negative, is_zero}
use es_sensor.Network.{Outcome}
use es_sensor.Network.Tcp.{tcp_disconnect}
use es_sensor.Network.Tls.{tls_disconnect}
use es_sensor.Network.Hosts.{ConnectionType, tcp, tls}

-- `x <= 0`
abbrev pub not_positive : ℤ → Bool
not_positive x = is_negative x || is_zero x

-- `tcp_init`: `none` is `exit(1)`, where the address of a server cannot be bound.
unfoldable pub tcp_init : Option Text → ℤ → ℤ → Bool → Option ℤ
tcp_init hostaddr socket_result bind_result found =
    if is_negative socket_result then some (negsuc 0) else elim hostaddr [
      | none ↦ if is_negative bind_result then none else some (pos 0)
      | some host ↦ if found then some (pos 0) else some (negsuc 0)
    ]

-- `tcp_connect`, `tcp_listen` and `tcp_accept` for what `connect`, `listen` and `accept` answer.
unfoldable pub tcp_connect : ℤ → ℤ
tcp_connect result = if is_negative result then negsuc 0 else pos 0

unfoldable pub tcp_listen : ℤ → ℤ
tcp_listen result = if is_negative result then negsuc 0 else pos 0

unfoldable pub tcp_accept : ℤ → ℤ
tcp_accept socket_fd = if is_negative socket_fd then negsuc 0 else pos 0

-- How `tls_init` is called, and what the calls in it answer; a client's `tcp_init` makes the socket and
-- looks for the host.
pub record InitAnswers : Type 0 where
  pub server_mode : Bool
  pub hostaddr : Text
  pub socket_result : ℤ
  pub host_found : Bool
  pub has_context : Bool
  pub certificate_result : ℤ
  pub key_result : ℤ
  pub check_result : ℤ
  pub ca_result : ℤ

-- `tcp_init(&((*tls_c)->tcp_c), hostaddr, portnum) < 0`
unfoldable pub tcp_refused : InitAnswers → Bool
unfolding tcp_init
tcp_refused a = elim (tcp_init (some a.hostaddr) a.socket_result (pos 0) a.host_found) [
  | none ↦ true
  | some err ↦ is_negative err
]

unfoldable pub tls_init : InitAnswers → ℤ
unfolding tcp_refused
tls_init a =
    if not a.server_mode && tcp_refused a
    then negsuc 0
    else if not a.has_context
    then negsuc 1
    else if not_positive a.certificate_result
    then negsuc 2
    else if not_positive a.key_result
    then negsuc 3
    else if not_positive a.check_result
    then negsuc 4
    else if not_positive a.ca_result
    then negsuc 5
    else pos 0

-- The steps behind the connection on the socket: `SSL_new`, `SSL_set_fd`, and `SSL_connect` or
-- `SSL_accept`.
unfoldable pub tls_connect : ℤ → Bool → ℤ → ℤ → ℤ
unfolding tcp_connect
tls_connect connect_result has_ssl set_fd_result ssl_result =
    if is_negative (tcp_connect connect_result)
    then negsuc 0
    else if not has_ssl
    then negsuc 1
    else if not_positive set_fd_result
    then negsuc 2
    else if not_positive ssl_result
    then negsuc 3
    else pos 0

unfoldable pub tls_accept : Bool → ℤ → ℤ → ℤ
tls_accept has_ssl set_fd_result ssl_result =
    if not has_ssl
    then negsuc 0
    else if not_positive set_fd_result
    then negsuc 1
    else if not_positive ssl_result
    then negsuc 2
    else pos 0

-- What stands behind the loop of `Transmission::run`: an open connection is closed.
unfoldable pub close_connection : ConnectionType → Bool → Bool → List ℤ → ℤ → ℤ → Option Outcome
unfolding tls_disconnect tcp_disconnect
close_connection tls tls_con tcp_con shutdown_answers socket_fd close_result =
    if tls_con then some (tls_disconnect shutdown_answers socket_fd close_result) else none
close_connection tcp tls_con tcp_con shutdown_answers socket_fd close_result =
    if tcp_con then some (tcp_disconnect socket_fd close_result) else none

-- A step that ends with an error when `failed`.
step_iff :
    {P : Type 0} (failed : Bool) (n : ℕ) (rest : ℤ)
    → ((rest ≡ pos 0) ↔ P)
    → (((if failed then negsuc n else rest) ≡ pos 0) ↔ ((failed ≡ false) × P))
step_iff true n rest h = (λ e. cc, λ q. cc)
step_iff false n rest h = (λ e. (refl, h.0 e), λ q. h.1 q.1)

-- The two chains of tests, over what the tests give.
connection :
    (c h f s : Bool)
    → ((if is_negative (if c then negsuc 0 else pos 0)
          then negsuc 0
          else if h
          then negsuc 1
          else if f
          then negsuc 2
          else if s
          then negsuc 3
          else pos 0)
        ≡ pos 0)
      ↔ (((if c then negsuc 0 else pos 0) ≡ pos 0)
          × ((if h then negsuc 0 else if f then negsuc 1 else if s then negsuc 2 else pos 0)
              ≡ pos 0))
connection true h f s = (λ e. cc, λ q. cc)
connection false true f s = (λ e. cc, λ q. cc)
connection false false true s = (λ e. cc, λ q. cc)
connection false false false true = (λ e. cc, λ q. cc)
connection false false false false = (λ e. (refl, refl), λ q. refl)

no_more : (pos 0 ≡ pos 0) ↔ All (λ failed. failed ≡ false) []
no_more = (λ e. tt, λ q. refl)

init_iff :
    (a : InitAnswers)
    → (tls_init a ≡ pos 0)
      ↔ All
          (λ failed. failed ≡ false)
          ((not a.server_mode && tcp_refused a)
            ∷ not a.has_context
            ∷ not_positive a.certificate_result
            ∷ not_positive a.key_result
            ∷ not_positive a.check_result
            ∷ not_positive a.ca_result
            ∷ [])
unfolding tls_init
init_iff a =
    step_iff _ 0 _
      (step_iff _ 1 _ (step_iff _ 2 _ (step_iff _ 3 _ (step_iff _ 4 _ (step_iff _ 5 _ no_more)))))

connect_iff :
    (connect_result set_fd_result ssl_result : ℤ) (has_ssl : Bool)
    → (tls_connect connect_result has_ssl set_fd_result ssl_result ≡ pos 0) ↔ (
        (tcp_connect connect_result ≡ pos 0)
        × (tls_accept has_ssl set_fd_result ssl_result ≡ pos 0))
unfolding tls_connect tls_accept tcp_connect
connect_iff c f s has_ssl =
    connection (is_negative c) (not has_ssl) (not_positive f) (not_positive s)

-- `tls_init` gives 0 exactly when the socket of a client is set up, the context exists and OpenSSL has
-- taken the certificate, the key, their match and the CA's certificate; `tls_connect` gives 0 exactly
-- when the connection on the socket succeeds and the steps do with which `tls_accept` gives 0.
pub tls_init_iff :
    (a : InitAnswers) (connect_result set_fd_result ssl_result : ℤ) (has_ssl : Bool)
    → ((tls_init a ≡ pos 0)
        ↔ All
            (λ failed. failed ≡ false)
            ((not a.server_mode && tcp_refused a)
              ∷ not a.has_context
              ∷ not_positive a.certificate_result
              ∷ not_positive a.key_result
              ∷ not_positive a.check_result
              ∷ not_positive a.ca_result
              ∷ []))
      × ((tls_connect connect_result has_ssl set_fd_result ssl_result ≡ pos 0) ↔ (
          (tcp_connect connect_result ≡ pos 0)
          × (tls_accept has_ssl set_fd_result ssl_result ≡ pos 0)))
tls_init_iff a connect_result set_fd_result ssl_result has_ssl =
    (init_iff a, connect_iff connect_result set_fd_result ssl_result has_ssl)
