-- ===== src/MqttTransport.antt =====
-- port/mqtt/transport_raw.c: the ring of received bytes between lwIP's callbacks and the MQTT client. A
-- chain of buffers is its total length, as lwIP gives it, with the bytes of each buffer.
pub mod Ring
pub mod Read
use flint_rtos.Base.{
  ℕ, zero, suc, ◌+◌, ◌-◌, ◌%◌, ◌^◌, Bool, true, false, ◌==◌, ◌&&◌, ◌||◌, not, leb, ltb,
  if◌then◌else◌, update, Option, none, some, List, [], ◌∷◌, length,
}
use flint_rtos.Int.{ℤ, pos, negsuc, of_word}

abbrev pub rx_ring_size : ℕ
rx_ring_size = 4096

pub data TransportState : Type 0 where
  ts_idle : TransportState
  ts_resolving : TransportState
  ts_connecting : TransportState
  ts_up : TransportState
  ts_closed : TransportState
  ts_error : TransportState

-- Whether there is a connection, its state, and the ring. The address and the texts of errors are left out.
pub record Network : Type 0 where
  pub pcb : Bool
  pub state : TransportState
  pub rx : ℕ → ℕ
  pub rx_head : ℕ
  pub rx_tail : ℕ

unfoldable pub ring_used : Network → ℕ
ring_used c = (c.rx_head + 2 ^ 32 - c.rx_tail) % 2 ^ 32

unfoldable pub ring_free : Network → ℕ
ring_free c = (rx_ring_size + 2 ^ 32 - ring_used c) % 2 ^ 32

-- The body of the loops of `on_recv`, the loop over one buffer, and the one over the chain.
unfoldable pub store : ℕ → Network → Network
store b c = record c {
  rx = update c.rx (c.rx_head % rx_ring_size) b;
  rx_head = (c.rx_head + 1) % 2 ^ 32;
}

unfoldable pub store_buffer : List ℕ → Network → Network
store_buffer [] c = c
store_buffer (b ∷ bs) c = store_buffer bs (store b c)

unfoldable pub store_chain : List (List ℕ) → Network → Network
store_chain [] c = c
store_chain (q ∷ qs) c = store_chain qs (store_buffer q c)

-- `on_recv`: `none` is the end of the connection. The answer says whether lwIP keeps the chain, with
-- ERR_MEM, or it is acknowledged and freed.
pub data RecvAnswer : Type 0 where
  closed : RecvAnswer
  kept : RecvAnswer
  acknowledged : ℕ → RecvAnswer

unfoldable pub on_recv : Option (ℕ × List (List ℕ)) → Network → RecvAnswer × Network
on_recv none c = (closed, record c { state = ts_closed })
on_recv (some (tot_len, chain)) c =
    if ltb (ring_free c) tot_len then (kept, c) else (acknowledged tot_len, store_chain chain c)

unfoldable pub on_err : Network → Network
on_err c = record c { pcb = false; state = ts_error }

-- Whether the error is ERR_OK.
unfoldable pub on_connected : Bool → Network → Network
on_connected ok c = record c { state = if ok then ts_up else ts_error }

abbrev pub is_ts_up : TransportState → Bool
is_ts_up ts_idle = false
is_ts_up ts_resolving = false
is_ts_up ts_connecting = false
is_ts_up ts_up = true
is_ts_up ts_closed = false
is_ts_up ts_error = false

unfoldable pub is_up : Network → Bool
is_up c = is_ts_up c.state && c.pcb

-- The loop of `mqtt_transport_recv`, where `room` more bytes are wanted, with the bytes that it copies.
unfoldable pub drain : ℕ → Network → List ℕ × Network
drain zero c = ([], c)
drain (suc room) c =
    let rest = drain room (record c { rx_tail = (c.rx_tail + 1) % 2 ^ 32 }) in
    if ltb 0 (ring_used c) then (c.rx (c.rx_tail % rx_ring_size) ∷ rest.0, rest.1) else ([], c)

-- `mqtt_transport_recv` once fm_plat_pump has run if it had to, with the bytes that it copies.
unfoldable pub recv_now : ℕ → Network → ℤ × List ℕ × Network
recv_now len c =
    let r = drain len c in
    if ring_used c == 0
    then (if is_up c then pos 0 else negsuc 0, [], c)
    else (of_word 32 (length r.0 % 2 ^ 32), r.0, r.1)

-- fm_plat_pump runs if nothing is pending.
unfoldable pub pumped : (Network → Network) → Network → Network
pumped pump c = if ring_used c == 0 then pump c else c

-- `mqtt_transport_recv`, where `pump` is fm_plat_pump.
unfoldable pub recv : (Network → Network) → ℕ → Network → ℤ × List ℕ × Network
recv pump len c = recv_now len (pumped pump c)

abbrev pub is_ts_error : TransportState → Bool
is_ts_error ts_idle = false
is_ts_error ts_resolving = false
is_ts_error ts_connecting = false
is_ts_error ts_up = false
is_ts_error ts_closed = false
is_ts_error ts_error = true

-- `mqtt_transport_close`, whose calls of lwIP are left out.
unfoldable pub transport_close : Network → Network
transport_close c = record c {
  pcb = false;
  state = if is_ts_error c.state then c.state else ts_idle;
}

-- `mqtt_transport_send`, where lwIP's send buffer has `room`, its queue is `queued` of at most `queue_max`
-- segments long, and tcp_write answers ERR_OK if `written`.
unfoldable pub transport_send : (Network → Network) → ℕ → ℕ → ℕ → Bool → ℕ → Network → ℤ × Network
transport_send pump room queued queue_max written len c =
    let n = if ltb room len then room else len % 2 ^ 16 in
    if not (is_up c)
    then (negsuc 0, c)
    else if room == 0 || leb (queue_max - 1) queued
    then (pos 0, pump c)
    else if written
    then (pos n, c)
    else (pos 0, pump c)
