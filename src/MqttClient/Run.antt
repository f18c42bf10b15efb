-- ===== src/MqttClient/Run.antt =====
-- Every call of the service, from flint_mqtt_init on, keeps what Phase says.
use flint_rtos.Base.{
  ℕ, zero, suc, ◌≡◌, refl, arith, ap, sym, Bool, true, false, not, leb, Option, some, List, [], ◌∷◌,
  either, true-false, subst,
}
use flint_rtos.MqttClient.State.{
  ptp_period_ms, stats_period_ms, Platform, Running, process_call, elapsed, read_ms, publish_ptp,
  publish_stats,
}
use flint_rtos.MqttClient.Command.{with_pending, on_events}
use flint_rtos.MqttClient.Service.{
  is_due, flint_mqtt_init, publish_reply, ptp_due, stats_due, publish_due, serve_online,
  flint_mqtt_service, serve,
}
use flint_rtos.MqttClient.Reply.{strlen-Ends}
use flint_rtos.MqttClient.Attempt.{called, drop_connection-Sound, try_connect-Sound}
use flint_rtos.MqttClient.Phase.{
  online, next, replay, phase_of, IsValid, EndsJson, Sound, publish-Sound, publish_json-Sound,
  on_events-Sound,
}

-- The answer is a state, and a sound one.
pub record Returns {W : Type 0} (io : Platform W) (laws : EndsJson io) (a : Option (Running W))
    : Type 0 where
  pub result : Running W
  pub returned : a ≡ some result
  pub sound : Sound io laws result

not-false : {b : Bool} → not b ≡ false → b ≡ true
not-false {b} e = ground (arith, e)

not-true : {b : Bool} → not b ≡ true → b ≡ false
not-true {b} e = ground (arith, e)

module _ {W : Type 0} (io : Platform W) (laws : EndsJson io) where
  ptp_due-Sound : (t : ℕ) (r : Running W) → Sound io laws r → Sound io laws (ptp_due io t r)
  unfolding ptp_due publish_ptp
  ptp_due-Sound t r v =
      either (Sound io laws) (leb ptp_period_ms (elapsed r.g.last_ptp_ms t))
        (λ e.
          publish_json-Sound io laws _ _ _
            (record { phase = v.phase; low = v.low; high = v.high; reply = v.reply }))
        (λ e. v)

  stats_due-Sound : (t : ℕ) (r : Running W) → Sound io laws r → Sound io laws (stats_due io t r)
  unfolding stats_due publish_stats
  stats_due-Sound t r v =
      either (Sound io laws) (leb stats_period_ms (elapsed r.g.last_stats_ms t))
        (λ e.
          publish_json-Sound io laws _ _ _
            (record { phase = v.phase; low = v.low; high = v.high; reply = v.reply }))
        (λ e. v)

  returned : (r : Running W) → Sound io laws r → Returns io laws (some r)
  returned r v = record { result = r; returned = refl; sound = v }

  publish_reply-Returns : (r : Running W) → Sound io laws r → Returns io laws (publish_reply io r)
  unfolding publish_reply
  publish_reply-Returns r v =
      either (Returns io laws) r.g.reply_pending
        (λ e.
          let k = strlen-Ends r.g.reply (v.reply e) in
          let s : Sound io laws (with_pending io false r) = record {
            phase = v.phase;
            low = v.low;
            high = v.high;
            reply = λ e. absurd (true-false (sym e));
          } in
          rw (k.1) (returned _ (publish-Sound io laws _ _ s)))
        (λ e. returned r v)

  publish_due-Returns : (r : Running W) → Sound io laws r → Returns io laws (publish_due io r)
  unfolding publish_due read_ms
  publish_due-Returns r v =
      let a = publish_reply-Returns r v in
      let now = io.ms a.result.world in
      let next : Running W = record a.result { world = now.1 } in
      rw (publish_due, a.returned)
        (returned _ (stats_due-Sound now.0 _ (ptp_due-Sound now.0 next a.sound)))

  serve_online-Returns :
      (r : Running W)
      → IsValid online r.g r.calls
      → r.g.connected ≡ true
      → Returns io laws (serve_online io r)
  unfolding serve_online next
  serve_online-Returns r v on =
      let p = io.mqtt_process_loop r.world in
      let r0 : Running W = record r { world = p.2; calls = process_call p.1 ∷ r.calls } in
      let v0 = called (process_call p.1) v refl in
      let s0 : Sound io laws r0 = subst (λ b. IsValid (phase_of b) r0.g r0.calls) (sym on) v0 in
      let s1 = on_events-Sound io laws p.0 r0 s0 in
      either (Returns io laws) (not p.1) (λ e. returned _ (drop_connection-Sound io laws _ _ s1))
        (λ e.
          either (Returns io laws) (not (io.is_transport_up (on_events io p.0 r0).world))
            (λ e. returned _ (drop_connection-Sound io laws _ _ s1))
            (λ e. publish_due-Returns _ s1))

  pub service-Returns :
      (r : Running W) → Sound io laws r → Returns io laws (flint_mqtt_service io r)
  unfolding flint_mqtt_service read_ms
  service-Returns r v =
      let now = io.ms r.world in
      let next : Running W = record r { world = now.1 } in
      either (Returns io laws) (not r.g.inited) (λ e. returned r v)
        (λ e.
          either (Returns io laws) (not r.g.connected)
            (λ off.
              let v0 = subst (λ b. IsValid (phase_of b) r.g r.calls) (not-true off) v in
              returned _ (
                either (Sound io laws) (is_due r.g.next_attempt_ms now.0)
                  (λ e. try_connect-Sound io laws next v0) (λ e. v)))
            (λ on.
              let up = not-false on in
              serve_online-Returns next (subst (λ b. IsValid (phase_of b) r.g r.calls) up v) up))

  serve-Returns : (n : ℕ) (r : Running W) → Sound io laws r → Returns io laws (serve io n r)
  unfolding serve
  serve-Returns zero r v = returned r v
  serve-Returns (suc n) r v =
      let a = serve-Returns n r v in rw (a.returned) (service-Returns a.result a.sound)

  -- From flint_mqtt_init, before which nothing was called and no reply is pending, any number of calls of
  -- flint_mqtt_service return.
  pub serve-init-Returns :
      (n : ℕ) (client_id broker_host : List ℕ) (broker_port : ℕ) (r : Running W)
      → r.calls ≡ []
      → r.g.reply_pending ≡ false
      → Returns io laws (serve io n (flint_mqtt_init io client_id broker_host broker_port r))
  unfolding flint_mqtt_init read_ms replay
  serve-init-Returns n client_id broker_host broker_port r fresh quiet = serve-Returns n _ (record {
    phase = ap replay fresh;
    low = omega arith;
    high = omega arith;
    reply = λ e. absurd (ground (arith, e, quiet));
  })
