-- ===== src/Network/Tls.antt =====
-- misc/TLS.cpp: reading, writing and closing over what OpenSSL's calls answer.
use es_sensor.Prelude.{
  ℕ, zero, suc, ◌+◌, ◌%◌, ◌^◌, ◌<◌, ◌≤◌, ◌≡◌, ◌≢◌, Bool, true, false, List, [], ◌∷◌, arith, ltb,
  lt→ltb, ◌==◌, if◌then◌else◌, if-both,
}
use es_sensor.Prelude.Int.{ℤ, pos, negsuc}
use es_sensor.Numeric.{to_unsigned}
use es_sensor.Network.{Outcome, success, failure, waiting}
use es_sensor.Network.Tcp.{tcp_disconnect}

-- `cnt == len ? 0 : -1` for the answer of `SSL_write`.
unfoldable pub tls_write : ℤ → ℕ → Outcome
tls_write (pos cnt) len = if cnt == len then success else failure
tls_write (negsuc e) len = failure

-- `tls_read` over what `SSL_read` answers. `cnt` and `bytes_read` are `unsigned int`, so that the test
-- `cnt < 0` never holds.
unfoldable pub tls_read : List ℤ → ℕ → ℕ → Outcome
tls_read [] size bytes_read = if ltb bytes_read size then waiting else success
tls_read (answer ∷ answers) size bytes_read =
    let cnt = to_unsigned 32 answer in
    let rest = tls_read answers size ((bytes_read + cnt) % 2 ^ 32) in
    if ltb bytes_read size then (if cnt == 0 then success else rest) else success

-- The loop over `SSL_shutdown`, with the rounds that are left: whether the last answer was 1.
unfoldable pub shutdown : ℕ → List ℤ → Bool
shutdown zero answers = false
shutdown (suc n) [] = false
shutdown (suc n) (negsuc e ∷ answers) = shutdown n answers
shutdown (suc n) (pos r ∷ answers) = let rest = shutdown n answers in if r == 1 then true else rest

-- `tls_disconnect`; -1 and -2 are both a failure.
unfoldable pub tls_disconnect : List ℤ → ℤ → ℤ → Outcome
unfolding shutdown tcp_disconnect
tls_disconnect answers socket_fd close_result =
    if shutdown 5 answers then tcp_disconnect socket_fd close_result else failure

read_enough :
    (answers : List ℤ) (size bytes_read : ℕ)
    → size ≤ bytes_read
    → tls_read answers size bytes_read ≡ success
unfolding tls_read
read_enough [] size bytes_read h = ground arith
read_enough (answer ∷ answers) size bytes_read h = ground arith

-- `tls_read` reports success however many bytes are missing: if the first call of `SSL_read` fails
-- with -1, the count of bytes read wraps around and the loop ends.
pub tls_read_error :
    (answers : List ℤ) (size : ℕ)
    → 0 < size
    → size < 2 ^ 32
    → tls_read (negsuc 0 ∷ answers) size 0 ≡ success
unfolding tls_read
tls_read_error answers size p small =
    rw (lt→ltb 0 size p) (read_enough answers size 4_294_967_295 (omega arith))

-- Whatever `SSL_read` answers, `tls_read` never reports a failure.
pub tls_read_never_fails :
    (answers : List ℤ) (size bytes_read : ℕ) → tls_read answers size bytes_read ≢ failure
unfolding tls_read
tls_read_never_fails [] size bytes_read =
    if-both (λ (o : Outcome). o ≢ failure) (ltb bytes_read size) (λ _ e. cc) (λ _ e. cc)
tls_read_never_fails (answer ∷ answers) size bytes_read =
    let cnt = to_unsigned 32 answer in
    let NotFailed : Outcome → Type 0 = λ o. o ≢ failure in
    if-both NotFailed (ltb bytes_read size)
      (λ _.
        if-both NotFailed (cnt == 0) (λ _ e. cc)
          (λ _. tls_read_never_fails answers size ((bytes_read + cnt) % 2 ^ 32)))
      (λ _ e. cc)
