-- ===== src/Examples/MqttClient.antt =====
-- The MQTT client over a platform whose clock is its world.
use flint_rtos.Base.{
  ℕ, zero, suc, take, inl, inr, ◌+◌, ◌*◌, ◌%◌, ◌^◌, ◌<◌, ◌≡◌, refl, arith, min, true, false, some,
  [], ◌∷◌, ◌++◌, update,
}
use flint_rtos.Int.{pos}
use flint_rtos.MqttClient.State.{codes, Platform, FlintMqtt, Running, read_ms}
use flint_rtos.MqttClient.Command.{
  word_eq, equal_bytes, skip_blanks, end_of, command_of, space_at, handle_command, with_pending,
  answer_to, one_command_more,
}
use flint_rtos.MqttClient.Service.{
  drop_connection, try_connect, flint_mqtt_init, serve, publish_reply,
}
use flint_rtos.MqttClient.Phase.{EndsJson}
use flint_rtos.MqttClient.Run.{Returns, serve-init-Returns}
use flint_rtos.MqttClient.Backoff.{
  Planned, passed, IsEarly, Unchanged, attempts, attempts-doubled, serve-drop-Unchanged,
}
use flint_rtos.MqttClient.Trim.{IsSpace, handle_command-trim}
use flint_rtos.MqttClient.Said.{handle_command-Publishes}
use flint_rtos.MqttClient.Whole.{Publishes, reply_text}
use flint_rtos.MqttClient.Pace.{Bounded, ptp_due_at, ptp_due_at-Bounded}

-- Each reading of the clock takes 100 ms; the statistics are "{}"; PTP does not run; a command comes in with
-- every call of MQTT_ProcessLoop.
abbrev board : Platform ℕ
board = record {
  ms = λ w. (w % 2 ^ 32, w + 100);
  ip = λ w. codes "192.0.2.7";
  led = λ on w. (pos 1, w);
  ptp_json = λ buf n w. (0, buf, w);
  stats_json = λ buf n w. (2, update (update (update buf 0 b'{') 1 b'}') 2 0, w);
  open_transport = λ host port limit w. (true, w);
  close_transport = λ w. w;
  is_transport_up = λ w. true;
  mqtt_init = λ w. (true, w);
  mqtt_connect = λ name will limit w. (true, w);
  mqtt_subscribe = λ filter w. (true, w);
  mqtt_publish = λ message w. (true, w);
  mqtt_process_loop = λ w. (
    record { type_byte = 0x30; publish_info = some (codes "flint/pi/cmd", codes "ping") } ∷ [],
    true,
    w,
  );
}

board-EndsJson : EndsJson board
board-EndsJson = record {
  ptp = λ buf w some_text. absurd (omega arith);
  stats = λ buf w some_text. record { at = 2; inside = omega arith; zero_byte = refl };
}

-- Nobody answers.
abbrev unplugged : Platform ℕ
unplugged = record board { open_transport = λ host port limit w. (false, w) }

abbrev blank : FlintMqtt
blank = record {
  id = [];
  host = [];
  port = 0;
  inited = false;
  connected = false;
  next_attempt_ms = 0;
  backoff_ms = 2000;
  last_ptp_ms = 0;
  last_stats_ms = 0;
  boot_ms = 0;
  topic_buf = [];
  t_status = [];
  t_ptp = [];
  t_stats = [];
  t_cmd = [];
  t_reply = codes "flint/pi/reply";
  reply_pending = false;
  reply = λ i. 0;
  scratch = λ i. 0;
  st = record { connects = 0; connect_failures = 0; published = 0; commands = 0 };
}

abbrev at_start : Running ℕ
at_start = record { g = blank; world = 500; calls = [] }

abbrev on_line : Running ℕ
on_line = record { g = record blank { connected = true }; world = 500; calls = [] }

serve-init-Returns_example :
    Returns board board-EndsJson
      (serve board 9 (flint_mqtt_init board (codes "pi") (codes "broker") 1883 at_start))
serve-init-Returns_example =
    serve-init-Returns board board-EndsJson 9 (codes "pi") (codes "broker") 1883 at_start refl refl

attempts-doubled_example :
    Planned unplugged (min 60000 (2000 * 2 ^ 5)) (attempts unplugged 6 at_start)
unfolding attempts try_connect drop_connection read_ms
attempts-doubled_example = attempts-doubled unplugged 5 at_start refl (λ k lt. fails k)
  where
    fails : (k : ℕ) → (attempts unplugged (suc k) at_start).g.connected ≡ false
    fails k = refl

abbrev started : Running ℕ
started = record { g = record blank { inited = true }; world = 500; calls = [] }

passed-board : (k w : ℕ) → passed board k w ≡ w + 100 * k
unfolding passed
passed-board zero w = omega arith
passed-board (suc k) w = let before = passed-board k w in omega (arith, before)

soon : (k : ℕ) → k < 19 → IsEarly board 500 2000 (passed board k 600)
soon k lt = rw (passed-board k 600) (omega arith, omega arith)

serve-drop-Unchanged_example :
    Unchanged board 19
      (drop_connection board started)
      (serve board 19 (drop_connection board started))
serve-drop-Unchanged_example =
    serve-drop-Unchanged board 19 started refl (omega arith) (omega arith) soon

no-IsSpace : (c : ℕ) → 32 < c → ¬ (IsSpace c)
no-IsSpace c lt (inl e) = omega arith
no-IsSpace c lt (inr (inl e)) = omega arith
no-IsSpace c lt (inr (inr (inl e))) = omega arith
no-IsSpace c lt (inr (inr (inr e))) = omega arith

handle_command-trim_example :
    handle_command board ((9 ∷ 32 ∷ []) ++ (codes "led on" ++ (13 ∷ 10 ∷ []))) on_line
    ≡ with_pending board true
        (answer_to board (take 47 (codes "led on")) (one_command_more board on_line))
handle_command-trim_example =
    handle_command-trim board (9 ∷ 32 ∷ []) (codes "led on") (13 ∷ 10 ∷ []) on_line
      (inr (inr (inr refl)), (inl refl, tt)) (inr (inr (inl refl)), (inr (inl refl), tt))
      (inr (omega arith, no-IsSpace 108 (omega arith), no-IsSpace 110 (omega arith)))

handle_command-Publishes_example :
    Publishes
      (record {
        topic = codes "flint/pi/reply";
        payload =
            reply_text
              (command_of (codes " hello\n"))
              (codes "error", codes "unknown command (try: help)");
        retain = false;
      })
      on_line
      (publish_reply board (handle_command board (codes " hello\n") on_line))
unfolding word_eq equal_bytes skip_blanks end_of command_of space_at
handle_command-Publishes_example =
    handle_command-Publishes board (codes " hello\n") on_line
      (codes "error", codes "unknown command (try: help)") refl refl

ptp_due_at-Bounded_example :
    Bounded board 5000 on_line (ptp_due_at board (1200 ∷ 1900 ∷ 5000 ∷ []) on_line)
ptp_due_at-Bounded_example =
    ptp_due_at-Bounded board 1200 (1900 ∷ 5000 ∷ []) on_line
      (omega arith, omega arith, (omega arith, omega arith, (omega arith, omega arith, tt)))
