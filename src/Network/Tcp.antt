-- ===== src/Network/Tcp.antt =====
-- misc/TCP.cpp: reading and writing whole messages.
use es_sensor.Prelude.{
  ℕ, zero, suc, ◌+◌, ◌-◌, min, List, [], ◌∷◌, ◌++◌, ltb, ◌==◌, if◌then◌else◌, length, take, drop,
}
use es_sensor.Prelude.Int.{ℤ, pos, negsuc}
use es_sensor.Network.{Outcome, success, failure, waiting}

-- `MIN(DEFAULT_PKT_SIZE_B, len - bytes_written)` bytes of the message from `bytes_written` on.
unfoldable pub next_chunk : List ℕ → ℕ → List ℕ
next_chunk msg bytes_written = take (min 512 (length msg - bytes_written)) (drop bytes_written msg)

-- `tcp_write` from `bytes_written` on, over what the calls of `write` answer: its result and the
-- bytes that went out.
unfoldable pub tcp_write : List ℤ → List ℕ → ℕ → Outcome × List ℕ
unfolding next_chunk
tcp_write [] msg bytes_written = (waiting, [])
tcp_write (negsuc e ∷ answers) msg bytes_written = (failure, [])
tcp_write (pos b ∷ answers) msg bytes_written =
    let out = take b (next_chunk msg bytes_written) in
    let rest = tcp_write answers msg (bytes_written + b) in
    if bytes_written + b == length msg then (success, out) else (rest.0, out ++ rest.1)

-- What `recvfrom` answers: an error, or the bytes that it has read.
pub data Received : Type 0 where
  error : Received
  bytes : List ℕ → Received

-- `tcp_read` over such answers: its result and the bytes in the buffer.
unfoldable pub tcp_read : List Received → ℕ → ℕ → List ℕ → Outcome × List ℕ
tcp_read [] len cnt msg = if ltb cnt 5 then (waiting, msg) else (failure, msg)
tcp_read (error ∷ answers) len cnt msg = (failure, msg)
tcp_read (bytes [] ∷ answers) len cnt msg =
    let rest = tcp_read answers len (cnt + 1) msg in
    if ltb cnt 5 then (if length msg == len then (success, msg) else rest) else (failure, msg)
tcp_read (bytes (x ∷ xs) ∷ answers) len cnt msg =
    let rest = tcp_read answers len cnt (msg ++ (x ∷ xs)) in
    if ltb cnt 5 then rest else (failure, msg)

-- `tcp_disconnect`, over what `close` answers.
unfoldable pub tcp_disconnect : ℤ → ℤ → Outcome
tcp_disconnect (negsuc e) close_result = success
tcp_disconnect (pos zero) close_result = success
tcp_disconnect (pos (suc n)) (negsuc e) = failure
tcp_disconnect (pos (suc n)) (pos r) = success
