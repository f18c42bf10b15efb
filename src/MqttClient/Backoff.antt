-- ===== src/MqttClient/Backoff.antt =====
-- The delays between the attempts to connect.
use flint_rtos.Base.{
  ℕ, zero, suc, ◌+◌, ◌*◌, ◌%◌, ◌^◌, ◌≤◌, ◌-◌, ◌<◌, ◌≡◌, refl, subst, ◌∙◌, arith, ap, sym, min, true,
  false, not, Option, some, either, true-false,
}
use flint_rtos.MqttClient.State.{
  connect_timeout_ms, Message, Platform, Running, elapsed, read_ms, publish, publish_status_online,
  build_status,
}
use flint_rtos.MqttClient.Service.{
  doubled, is_due, drop_connection, will, connected_now, connect_mqtt, start_mqtt, try_connect,
  flint_mqtt_service, serve,
}

module _ {W : Type 0} (io : Platform W) where
  unfoldable pub attempts : ℕ → Running W → Running W
  attempts zero r = r
  attempts (suc n) r = try_connect io (attempts n r)

  publish-connected : (m : Message) (r : Running W) → (publish io m r).g.connected ≡ r.g.connected
  unfolding publish
  publish-connected m r =
      let same : Running W → Type 0 = λ s. s.g.connected ≡ r.g.connected in
      either same (not r.g.connected) (λ e. refl)
        (λ e. either same (io.mqtt_publish m r.world).0 (λ f. refl) (λ f. refl))

  connected_now-connected : (r : Running W) → (connected_now io r).g.connected ≡ true
  unfolding connected_now publish_status_online build_status read_ms
  connected_now-connected r = publish-connected _ _

  -- The next attempt is planned at some delay after the last reading of the clock.
  abbrev pub Planned : ℕ → Running W → Type 0
  Planned delay s =
      (w : W) × (s.world ≡ (io.ms w).1) × (s.g.next_attempt_ms ≡ ((io.ms w).0 + delay) % 2 ^ 32)

  -- If it has not connected, the next attempt is put off by the delay `b`, which is doubled.
  abbrev Delayed : ℕ → Running W → Type 0
  Delayed b s = s.g.connected ≡ false → (s.g.backoff_ms ≡ doubled b) × Planned b s

  drop_connection-Delayed : (r : Running W) → Delayed r.g.backoff_ms (drop_connection io r)
  unfolding drop_connection read_ms
  drop_connection-Delayed r e = (refl, (io.close_transport r.world, refl, refl))

  connect_mqtt-Delayed : (r : Running W) → Delayed r.g.backoff_ms (connect_mqtt io r)
  unfolding connect_mqtt
  connect_mqtt-Delayed r =
      either (Delayed r.g.backoff_ms)
        (not (io.mqtt_connect r.g.id (will r.g) connect_timeout_ms r.world).0)
        (λ e. drop_connection-Delayed _)
        (λ e f. absurd (true-false (sym (connected_now-connected _) ∙ f)))

  start_mqtt-Delayed : (r : Running W) → Delayed r.g.backoff_ms (start_mqtt io r)
  unfolding start_mqtt
  start_mqtt-Delayed r =
      either (Delayed r.g.backoff_ms) (not (io.mqtt_init r.world).0)
        (λ e. drop_connection-Delayed _) (λ e. connect_mqtt-Delayed _)

  try_connect-Delayed : (r : Running W) → Delayed r.g.backoff_ms (try_connect io r)
  unfolding try_connect
  try_connect-Delayed r =
      either (Delayed r.g.backoff_ms)
        (not (io.open_transport r.g.host r.g.port connect_timeout_ms r.world).0)
        (λ e. drop_connection-Delayed _) (λ e. start_mqtt-Delayed _)

  pow-pos : (n : ℕ) → 1 ≤ 2 ^ n
  pow-pos zero = omega arith
  pow-pos (suc n) = let more = pow-pos n in omega (arith, more)

  doubled-min : (x : ℕ) → 2000 ≤ x → doubled (min 60000 x) ≡ min 60000 (2 * x)
  unfolding doubled
  doubled-min x big = ground arith

  attempts-backoff :
      (n : ℕ) (r : Running W)
      → r.g.backoff_ms ≡ 2000
      → ((k : ℕ) → k < n → (attempts (suc k) r).g.connected ≡ false)
      → (attempts n r).g.backoff_ms ≡ min 60000 (2000 * 2 ^ n)
  unfolding attempts
  attempts-backoff zero r from fails = ground (arith, from)
  attempts-backoff (suc n) r from fails =
      let before = attempts-backoff n r from (λ k lt. fails k (omega arith)) in
      let big = pow-pos n in
      let up : 2000 * 2 ^ suc n ≡ 2 * (2000 * 2 ^ n) = ground arith in
      (try_connect-Delayed (attempts n r) (fails n (omega arith))).0
      ∙ (ap doubled before
          ∙ (doubled-min (2000 * 2 ^ n) (omega (arith, big)) ∙ ap (min 60000) (sym up)))

  -- From the delay of 2 seconds, after `n + 1` attempts in a row none of which connects, the next attempt is
  -- planned, modulo 2 ^ 32 milliseconds, after the last reading of the clock by 2 seconds doubled `n` times,
  -- and by 60 seconds at most.
  pub attempts-doubled :
      (n : ℕ) (r : Running W)
      → r.g.backoff_ms ≡ 2000
      → ((k : ℕ) → k < suc n → (attempts (suc k) r).g.connected ≡ false)
      → Planned (min 60000 (2000 * 2 ^ n)) (attempts (suc n) r)
  unfolding attempts
  attempts-doubled n r from fails =
      let before = attempts-backoff n r from (λ k lt. fails k (omega arith)) in
      subst (λ b. Planned b (try_connect io (attempts n r))) before
        (try_connect-Delayed (attempts n r) (fails n (omega arith))).1

waiting :
    (at b t : ℕ)
    → at < 2 ^ 32
    → t < 2 ^ 32
    → b ≤ 60000
    → (t + 2 ^ 32 - at) % 2 ^ 32 < b
    → is_due ((at + b) % 2 ^ 32) t ≡ false
unfolding is_due elapsed
waiting at b t a_word t_word short early = ground arith

module _ {W : Type 0} (io : Platform W) where
  -- The world after `k` readings of the clock.
  unfoldable pub passed : ℕ → W → W
  passed zero w = w
  passed (suc k) w = (io.ms (passed k w)).1

  -- The reading of the clock in `w` is a word, and less than `b` after the reading `at`.
  abbrev pub IsEarly : ℕ → ℕ → W → Type 0
  IsEarly at b w = ((io.ms w).0 < 2 ^ 32) × (((io.ms w).0 + 2 ^ 32 - at) % 2 ^ 32 < b)

  -- The answer is a state, in which the client and the calls made are as in `r`, and the clock has been
  -- read `n` times.
  pub record Unchanged (n : ℕ) (r : Running W) (a : Option (Running W)) : Type 0 where
    pub result : Running W
    pub returned : a ≡ some result
    pub client : result.g ≡ r.g
    pub calls : result.calls ≡ r.calls
    pub clock : result.world ≡ passed n r.world

  module _ (at b : ℕ) (a_word : at < 2 ^ 32) (short : b ≤ 60000) where
    service-early :
        (r : Running W)
        → r.g.inited ≡ true
        → r.g.connected ≡ false
        → r.g.next_attempt_ms ≡ (at + b) % 2 ^ 32
        → IsEarly at b r.world
        → flint_mqtt_service io r ≡ some (record r { world = (io.ms r.world).1 })
    unfolding flint_mqtt_service read_ms
    service-early r ready off planned (word, early) =
        let still : is_due r.g.next_attempt_ms (io.ms r.world).0 ≡ false =
          ap (λ n. is_due n (io.ms r.world).0) planned
          ∙ waiting at b (io.ms r.world).0 a_word word short early in
        rw (ready, off, still) refl

    serve-Unchanged :
        (n : ℕ) (r : Running W)
        → r.g.inited ≡ true
        → r.g.connected ≡ false
        → r.g.next_attempt_ms ≡ (at + b) % 2 ^ 32
        → ((k : ℕ) → k < n → IsEarly at b (passed k r.world))
        → Unchanged n r (serve io n r)
    unfolding serve passed
    serve-Unchanged zero r ready off planned early = record {
      result = r;
      returned = refl;
      client = refl;
      calls = refl;
      clock = refl;
    }
    serve-Unchanged (suc n) r ready off planned early =
        let a = serve-Unchanged n r ready off planned (λ k lt. early k (omega arith)) in
        let now = subst (IsEarly at b) (sym a.clock) (early n (omega arith)) in
        record {
          result = record a.result { world = (io.ms a.result.world).1 };
          returned = rw (a.returned) (
              service-early a.result (ap (λ g. g.inited) a.client ∙ ready)
                (ap (λ g. g.connected) a.client ∙ off)
                (ap (λ g. g.next_attempt_ms) a.client ∙ planned) now);
          client = a.client;
          calls = a.calls;
          clock = ap (λ w. (io.ms w).1) a.clock;
        }

  -- Let flint_mqtt_init have been called, and the connection be dropped at some reading of the clock, a
  -- word, with a delay of at most a minute. If at each of the next `n` readings the clock is a word less
  -- than that delay past the reading, modulo 2 ^ 32, then `n` calls of flint_mqtt_service return, take
  -- these readings, call neither the transport nor coreMQTT, and leave the client as it is.
  pub serve-drop-Unchanged :
      (n : ℕ) (r : Running W)
      → r.g.inited ≡ true
      → (io.ms (io.close_transport r.world)).0 < 2 ^ 32
      → r.g.backoff_ms ≤ 60000
      → ((k : ℕ)
          → k < n
          → IsEarly
              (io.ms (io.close_transport r.world)).0
              r.g.backoff_ms
              (passed k (io.ms (io.close_transport r.world)).1))
      → Unchanged n (drop_connection io r) (serve io n (drop_connection io r))
  unfolding drop_connection read_ms
  serve-drop-Unchanged n r ready a_word short early =
      serve-Unchanged (io.ms (io.close_transport r.world)).0 r.g.backoff_ms a_word short n
        (drop_connection io r) ready refl refl early
