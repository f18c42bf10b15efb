-- ===== src/MqttClient/Service.antt =====
-- port/mqtt/flint_mqtt.c: the connection and its loss, and the two calls that the application makes.
use flint_rtos.Base.{
  ℕ, zero, suc, ◌+◌, ◌-◌, ◌*◌, ◌%◌, ◌^◌, Bool, true, false, not, ltb, leb, if◌then◌else◌, Option,
  none, some, List, ◌∷◌,
}
use flint_rtos.Clib.{strlen}
use flint_rtos.MqttClient.State.{
  codes, id_max, host_max, connect_timeout_ms, ptp_period_ms, stats_period_ms, backoff_min_ms,
  backoff_max_ms, reply_max, Message, Platform, Running, open_call, close_call, init_call,
  connect_call, subscribe_call, process_call, FlintMqtt, count_up, elapsed, copied_to, make_topic,
  payload_of, read_ms, publish, publish_status_online, publish_ptp, publish_stats,
}
use flint_rtos.MqttClient.Command.{with_pending, on_events}

unfoldable pub doubled : ℕ → ℕ
doubled b = if ltb backoff_max_ms (b * 2 % 2 ^ 32) then backoff_max_ms else b * 2 % 2 ^ 32

-- `(int32_t)(t - at) >= 0`
unfoldable pub is_due : ℕ → ℕ → Bool
unfolding elapsed
is_due at t = ltb (elapsed at t) (2 ^ 31)

-- `{"state":"offline"}`, kept.
abbrev pub will : FlintMqtt → Message
will g = record { topic = g.t_status; payload = codes "{\"state\":\"offline\"}"; retain = true }

module _ {W : Type 0} (io : Platform W) where
  -- `drop`
  unfoldable pub drop_connection : Running W → Running W
  drop_connection r =
      let closed = record r {
        g = record r.g { connected = false };
        world = io.close_transport r.world;
        calls = close_call ∷ r.calls;
      } in
      let now = read_ms io closed in
      record now.1 {
        g = record now.1.g {
          next_attempt_ms = (now.0 + r.g.backoff_ms) % 2 ^ 32;
          backoff_ms = doubled r.g.backoff_ms;
        };
      }

  abbrev pub one_failure_more : Running W → Running W
  one_failure_more r = record r {
    g = record r.g { st = record r.g.st { connect_failures = count_up r.g.st.connect_failures } };
  }

  -- What `try_connect` does once MQTT_Connect has answered MQTTSuccess.
  unfoldable pub connected_now : Running W → Running W
  connected_now r =
      let joined = record r {
        g = record r.g {
          connected = true;
          backoff_ms = backoff_min_ms;
          st = record r.g.st { connects = count_up r.g.st.connects };
        };
      } in
      let s = io.mqtt_subscribe joined.g.t_cmd joined.world in
      let told =
        publish_status_online io
          (record joined { world = s.1; calls = subscribe_call joined.g.t_cmd ∷ joined.calls }) in
      let first = read_ms io told in
      let second = read_ms io first.1 in
      record second.1 {
        g = record second.1.g {
          last_ptp_ms = first.0;
          last_stats_ms = (second.0 + 2 ^ 32 - stats_period_ms + 2000) % 2 ^ 32;
        };
      }

  -- `try_connect` from MQTT_Connect on, from MQTT_Init on, and as a whole.
  unfoldable pub connect_mqtt : Running W → Running W
  connect_mqtt r =
      let c = io.mqtt_connect r.g.id (will r.g) connect_timeout_ms r.world in
      let asked = record r { world = c.1; calls = connect_call c.0 (will r.g) ∷ r.calls } in
      if not c.0 then drop_connection (one_failure_more asked) else connected_now asked

  unfoldable pub start_mqtt : Running W → Running W
  start_mqtt r =
      let i = io.mqtt_init r.world in
      let asked = record r { world = i.1; calls = init_call i.0 ∷ r.calls } in
      if not i.0 then drop_connection asked else connect_mqtt asked

  unfoldable pub try_connect : Running W → Running W
  try_connect r =
      let o = io.open_transport r.g.host r.g.port connect_timeout_ms r.world in
      let asked = record r { world = o.1; calls = open_call o.0 ∷ r.calls } in
      if not o.0 then drop_connection (one_failure_more asked) else start_mqtt asked

  unfoldable pub flint_mqtt_init : List ℕ → List ℕ → ℕ → Running W → Running W
  flint_mqtt_init client_id broker_host broker_port r =
      let id = copied_to client_id id_max in
      let first = read_ms io r in
      let second = read_ms io first.1 in
      record second.1 {
        g = record r.g {
          id = id;
          host = copied_to broker_host host_max;
          port = broker_port;
          t_status = make_topic id (codes "status");
          t_ptp = make_topic id (codes "ptp");
          t_stats = make_topic id (codes "stats");
          t_cmd = make_topic id (codes "cmd");
          t_reply = make_topic id (codes "reply");
          boot_ms = first.0;
          backoff_ms = backoff_min_ms;
          next_attempt_ms = second.0;
          connected = false;
          inited = true;
        };
      }

  -- The reply is published up to its terminator; `none` is a reply that has none in its buffer.
  unfoldable pub publish_reply : Running W → Option (Running W)
  publish_reply r =
      if r.g.reply_pending
      then elim (strlen reply_max 0 r.g.reply) [
        | none ↦ none
        | some n ↦ some (
            publish io
              (record { topic = r.g.t_reply; payload = payload_of r.g.reply 0 n; retain = false })
              (with_pending io false r))
      ]
      else some r

  unfoldable pub ptp_due : ℕ → Running W → Running W
  ptp_due t r =
      let next = (r.g.last_ptp_ms + ptp_period_ms) % 2 ^ 32 in
      let last = if leb ptp_period_ms (elapsed next t) then t else next in
      if leb ptp_period_ms (elapsed r.g.last_ptp_ms t)
      then publish_ptp io (record r { g = record r.g { last_ptp_ms = last } })
      else r

  unfoldable pub stats_due : ℕ → Running W → Running W
  stats_due t r =
      if leb stats_period_ms (elapsed r.g.last_stats_ms t)
      then publish_stats io (record r { g = record r.g { last_stats_ms = t } })
      else r

  -- What `flint_mqtt_service` publishes while the connection is up.
  unfoldable pub publish_due : Running W → Option (Running W)
  publish_due r = elim (publish_reply r) [
    | none ↦ none
    | some r1 ↦ let now = read_ms io r1 in some (stats_due now.0 (ptp_due now.0 now.1))
  ]

  unfoldable pub serve_online : Running W → Option (Running W)
  serve_online r =
      let p = io.mqtt_process_loop r.world in
      let r1 = on_events io p.0 (record r { world = p.2; calls = process_call p.1 ∷ r.calls }) in
      if not p.1
      then some (drop_connection r1)
      else if not (io.is_transport_up r1.world)
      then some (drop_connection r1)
      else publish_due r1

  unfoldable pub flint_mqtt_service : Running W → Option (Running W)
  flint_mqtt_service r =
      let now = read_ms io r in
      if not r.g.inited
      then some r
      else if not r.g.connected
      then some (if is_due r.g.next_attempt_ms now.0 then try_connect now.1 else now.1)
      else serve_online now.1

  -- The service called `n` times.
  unfoldable pub serve : ℕ → Running W → Option (Running W)
  serve zero r = some r
  serve (suc n) r = elim (serve n r) [ none ↦ none | some s ↦ flint_mqtt_service s ]
