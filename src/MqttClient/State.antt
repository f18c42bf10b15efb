-- ===== src/MqttClient/State.antt =====
-- port/mqtt/flint_mqtt.c: the state of the client, the services that it calls, its topics and what it
-- publishes. A string is the list of its bytes before the terminator; what is logged is left out.
use Prim.Native.String.{String}
use Prim.Native.Char.{code}
use flint_rtos.Base.{
  ℕ, zero, suc, ◌+◌, ◌-◌, ◌/◌, ◌%◌, ◌^◌, Bool, true, false, not, ltb, if◌then◌else◌, Option, some,
  List, [], ◌∷◌, ◌++◌, length, take,
}
use flint_rtos.Int.{ℤ}
use flint_rtos.Jsonw.{JsonW, init, obj_open, obj_close, str, u32}

abbrev pub codes : String → List ℕ
codes String.[] = []
codes (String.◌∷◌ c s) = code c ∷ codes s

abbrev pub topic_max : ℕ
topic_max = 64

abbrev pub id_max : ℕ
id_max = 32

abbrev pub host_max : ℕ
host_max = 64

abbrev pub connect_timeout_ms : ℕ
connect_timeout_ms = 8000

abbrev pub ptp_period_ms : ℕ
ptp_period_ms = 1000

abbrev pub stats_period_ms : ℕ
stats_period_ms = 10000

abbrev pub backoff_min_ms : ℕ
backoff_min_ms = 2000

abbrev pub backoff_max_ms : ℕ
backoff_max_ms = 60000

abbrev pub reply_max : ℕ
reply_max = 1024

-- MQTTPublishInfo_t: the topic, the payload and the flag. The level of service is 0 throughout.
pub record Message : Type 0 where
  pub topic : List ℕ
  pub payload : List ℕ
  pub retain : Bool

-- A packet as coreMQTT reports it: the byte of its type and, if pPublishInfo is not NULL, what it points to.
pub record Packet : Type 0 where
  pub type_byte : ℕ
  pub publish_info : Option (List ℕ × List ℕ)

-- What the client calls: the platform services of mqtt_platform.h, the transport, and coreMQTT, on a
-- world that they read and change. A status is whether it is MQTTSuccess (of MQTT_ProcessLoop, also
-- MQTTNeedMoreBytes); MQTT_ProcessLoop answers with the packets that it reports to on_event.
pub record Platform (W : Type 0) : Type 0 where
  pub ms : W → ℕ × W
  pub ip : W → List ℕ
  pub led : ℤ → W → ℤ × W
  pub ptp_json : (ℕ → ℕ) → ℕ → W → ℕ × (ℕ → ℕ) × W
  pub stats_json : (ℕ → ℕ) → ℕ → W → ℕ × (ℕ → ℕ) × W
  pub open_transport : List ℕ → ℕ → ℕ → W → Bool × W
  pub close_transport : W → W
  pub is_transport_up : W → Bool
  pub mqtt_init : W → Bool × W
  pub mqtt_connect : List ℕ → Message → ℕ → W → Bool × W
  pub mqtt_subscribe : List ℕ → W → Bool × W
  pub mqtt_publish : Message → W → Bool × W
  pub mqtt_process_loop : W → List Packet × Bool × W

pub record FlintMqttStats : Type 0 where
  pub connects : ℕ
  pub connect_failures : ℕ
  pub published : ℕ
  pub commands : ℕ

pub record FlintMqtt : Type 0 where
  pub id : List ℕ
  pub host : List ℕ
  pub port : ℕ
  pub inited : Bool
  pub connected : Bool
  pub next_attempt_ms : ℕ
  pub backoff_ms : ℕ
  pub last_ptp_ms : ℕ
  pub last_stats_ms : ℕ
  pub boot_ms : ℕ
  pub topic_buf : List ℕ
  pub t_status : List ℕ
  pub t_ptp : List ℕ
  pub t_stats : List ℕ
  pub t_cmd : List ℕ
  pub t_reply : List ℕ
  pub reply_pending : Bool
  pub reply : ℕ → ℕ
  pub scratch : ℕ → ℕ
  pub st : FlintMqttStats

-- The calls of the transport and of coreMQTT, with their status.
pub data Call : Type 0 where
  open_call : Bool → Call
  close_call : Call
  init_call : Bool → Call
  connect_call : Bool → Message → Call
  subscribe_call : List ℕ → Call
  publish_call : Message → Call
  process_call : Bool → Call

-- The client, the world around it, and the calls made so far, the latest first.
pub record Running (W : Type 0) : Type 0 where
  pub g : FlintMqtt
  pub world : W
  pub calls : List Call

-- `fm_strlcpy` and `fm_strlcat` into an array of `size` bytes that holds `dst`.
unfoldable pub copied_to : List ℕ → ℕ → List ℕ
copied_to src size = take (size - 1) src

unfoldable pub appended : List ℕ → List ℕ → ℕ → List ℕ
unfolding copied_to
appended dst src size =
    if ltb (length dst) size then dst ++ copied_to src (size - length dst) else dst

unfoldable pub make_topic : List ℕ → List ℕ → List ℕ
make_topic id leaf =
    appended
      (appended (appended (copied_to (codes "flint/") topic_max) id topic_max) (codes "/")
        topic_max)
      leaf topic_max

-- The `n` bytes of a buffer from the place `i` on.
unfoldable pub payload_of : (ℕ → ℕ) → ℕ → ℕ → List ℕ
payload_of buf i zero = []
payload_of buf i (suc n) = buf i ∷ payload_of buf (i + 1) n

abbrev pub count_up : ℕ → ℕ
count_up n = (n + 1) % 2 ^ 32

-- The time from `since` to `t`, in milliseconds.
unfoldable pub elapsed : ℕ → ℕ → ℕ
elapsed since t = (t + 2 ^ 32 - since) % 2 ^ 32

-- `flint_mqtt_topic`
unfoldable pub topic : List ℕ → FlintMqtt → FlintMqtt
topic leaf g = record g { topic_buf = make_topic g.id leaf }

module _ {W : Type 0} (io : Platform W) where
  unfoldable pub read_ms : Running W → ℕ × Running W
  read_ms r = let t = io.ms r.world in (t.0, record r { world = t.1 })

  -- The status of a publication is what the callers do not look at. A topic has less than 2 ^ 16 bytes.
  unfoldable pub publish : Message → Running W → Running W
  publish m r =
      let a = io.mqtt_publish m r.world in
      let called = record r { world = a.1; calls = publish_call m ∷ r.calls } in
      if not r.g.connected
      then r
      else if a.0
      then record called {
        g = record r.g { st = record r.g.st { published = count_up r.g.st.published } };
      }
      else called

  unfoldable pub build_status : List ℕ → Running W → JsonW × Running W
  build_status state r =
      let w0 = obj_open (init r.g.scratch reply_max) in
      let w1 = str (some (codes "state")) state w0 in
      let w2 = str (some (codes "id")) r.g.id w1 in
      let w3 = str (some (codes "ip")) (io.ip r.world) w2 in
      let w4 = str (some (codes "fw")) (codes "FlintRTOS / lwIP 2.2.0 / coreMQTT 2.3.1") w3 in
      let now = read_ms r in
      let w5 = u32 (some (codes "uptime_s")) (elapsed r.g.boot_ms now.0 / 1000) w4 in
      let w = obj_close w5 in (w, record now.1 { g = record r.g { scratch = w.buf } })

  unfoldable pub publish_status_online : Running W → Running W
  publish_status_online r =
      let b = build_status (codes "online") r in
      publish
        (record { topic = r.g.t_status; payload = payload_of b.0.buf 0 b.0.len; retain = true }) b.1

  -- `publish_ptp` and `publish_stats`, which differ in the service and the topic.
  unfoldable pub publish_json : List ℕ → ℕ × (ℕ → ℕ) × W → Running W → Running W
  publish_json to (n, buf, w) r =
      let written = record r { world = w; g = record r.g { scratch = buf } } in
      if ltb 0 n
      then publish (record { topic = to; payload = payload_of buf 0 n; retain = false }) written
      else written

  unfoldable pub publish_ptp : Running W → Running W
  publish_ptp r = publish_json r.g.t_ptp (io.ptp_json r.g.scratch reply_max r.world) r

  unfoldable pub publish_stats : Running W → Running W
  publish_stats r = publish_json r.g.t_stats (io.stats_json r.g.scratch reply_max r.world) r
