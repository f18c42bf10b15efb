-- ===== src/MqttClient/Attempt.antt =====
-- An attempt to connect and the loss of the connection keep what Phase says.
use flint_rtos.Base.{
  ℕ, ◌≤◌, ◌≡◌, refl, arith, Bool, true, false, not, if◌then◌else◌, some, List, ◌∷◌, either,
  true-false,
}
use flint_rtos.MqttClient.State.{
  connect_timeout_ms, Platform, Running, Call, open_call, close_call, init_call, connect_call,
  subscribe_call, FlintMqtt, count_up, read_ms,
}
use flint_rtos.MqttClient.Service.{
  doubled, will, drop_connection, one_failure_more, connected_now, connect_mqtt, start_mqtt,
  try_connect,
}
use flint_rtos.MqttClient.Phase.{
  Phase, offline, opened, initialised, online, next, IsValid, EndsJson, after, Sound,
  publish_status_online-Sound,
}

-- One more call, which leads to another phase.
pub called :
    {p q : Phase} {g : FlintMqtt} {cs : List Call} (c : Call)
    → IsValid p g cs
    → next p c ≡ some q
    → IsValid q g (c ∷ cs)
called c v step = record {
  phase = after _ _ c _ v.phase step;
  low = v.low;
  high = v.high;
  reply = v.reply;
}

closing : (p : Phase) → next p close_call ≡ some offline
unfolding next
closing offline = refl
closing opened = refl
closing initialised = refl
closing online = refl

doubled-low : (b : ℕ) → 2000 ≤ b → b ≤ 60000 → 2000 ≤ doubled b
unfolding doubled
doubled-low b low high = ground arith

doubled-high : (b : ℕ) → doubled b ≤ 60000
unfolding doubled
doubled-high b = ground arith

module _ {W : Type 0} (io : Platform W) (laws : EndsJson io) where
  pub drop_connection-Sound :
      (p : Phase) (r : Running W) → IsValid p r.g r.calls → Sound io laws (drop_connection io r)
  unfolding drop_connection read_ms
  drop_connection-Sound p r v = record {
    phase = after p offline close_call r.calls v.phase (closing p);
    low = doubled-low r.g.backoff_ms v.low v.high;
    high = doubled-high r.g.backoff_ms;
    reply = v.reply;
  }

  failed-Sound :
      (p : Phase) (r : Running W)
      → IsValid p r.g r.calls
      → Sound io laws (drop_connection io (one_failure_more io r))
  failed-Sound p r v =
      drop_connection-Sound p (one_failure_more io r)
        (record { phase = v.phase; low = v.low; high = v.high; reply = v.reply })

  connected_now-Sound :
      (r : Running W) → IsValid online r.g r.calls → Sound io laws (connected_now io r)
  unfolding connected_now read_ms next
  connected_now-Sound r v =
      let joined : Running W = record r {
        g = record r.g {
          connected = true;
          backoff_ms = 2000;
          st = record r.g.st { connects = count_up r.g.st.connects };
        };
      } in
      let s = io.mqtt_subscribe joined.g.t_cmd joined.world in
      let asked : Running W = record joined {
        world = s.1;
        calls = subscribe_call joined.g.t_cmd ∷ joined.calls;
      } in
      let up : Sound io laws asked = record {
        phase = after online online (subscribe_call r.g.t_cmd) r.calls v.phase refl;
        low = omega arith;
        high = omega arith;
        reply = v.reply;
      } in
      let told = publish_status_online-Sound io laws asked up in
      record { phase = told.phase; low = told.low; high = told.high; reply = told.reply }

  -- The phase that the status of a call picks, once the status is known.
  taken :
      (b : Bool) (p q : Phase) {g : FlintMqtt} {cs : List Call}
      → IsValid (if b then p else q) g cs
      → not b ≡ false
      → IsValid p g cs
  taken true p q v e = v
  taken false p q v e = absurd (true-false e)

  connect_mqtt-Sound :
      (r : Running W) → IsValid initialised r.g r.calls → Sound io laws (connect_mqtt io r)
  unfolding connect_mqtt next
  connect_mqtt-Sound r v =
      let c = io.mqtt_connect r.g.id (will r.g) connect_timeout_ms r.world in
      let asked : Running W = record r {
        world = c.1;
        calls = connect_call c.0 (will r.g) ∷ r.calls;
      } in
      let v1 = called (connect_call c.0 (will r.g)) v refl in
      either (Sound io laws) (not c.0) (λ e. failed-Sound _ asked v1)
        (λ on. connected_now-Sound asked (taken c.0 online initialised v1 on))

  start_mqtt-Sound : (r : Running W) → IsValid opened r.g r.calls → Sound io laws (start_mqtt io r)
  unfolding start_mqtt next
  start_mqtt-Sound r v =
      let i = io.mqtt_init r.world in
      let asked : Running W = record r { world = i.1; calls = init_call i.0 ∷ r.calls } in
      let v1 = called (init_call i.0) v refl in
      either (Sound io laws) (not i.0) (λ e. drop_connection-Sound _ asked v1)
        (λ set. connect_mqtt-Sound asked (taken i.0 initialised opened v1 set))

  pub try_connect-Sound :
      (r : Running W) → IsValid offline r.g r.calls → Sound io laws (try_connect io r)
  unfolding try_connect next
  try_connect-Sound r v =
      let o = io.open_transport r.g.host r.g.port connect_timeout_ms r.world in
      let asked : Running W = record r { world = o.1; calls = open_call o.0 ∷ r.calls } in
      let v1 = called (open_call o.0) v refl in
      either (Sound io laws) (not o.0) (λ e. failed-Sound _ asked v1)
        (λ up. start_mqtt-Sound asked (taken o.0 opened offline v1 up))
