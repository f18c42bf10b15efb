-- ===== src/MqttClient/Pace.antt =====
-- How often the state of the PTP clock is published.
use flint_rtos.Base.{
  ℕ, ◌+◌, ◌-◌, ◌*◌, ◌%◌, ◌^◌, ◌≤◌, ◌<◌, ◌≡◌, refl, arith, not, ltb, leb, if◌then◌else◌, List, [],
  ◌∷◌, length, either,
}
use flint_rtos.MqttClient.State.{
  reply_max, ptp_period_ms, Message, Platform, Running, elapsed, publish, publish_json, publish_ptp,
}
use flint_rtos.MqttClient.Service.{ptp_due}

-- The times are in order, from `low` on, and words.
abbrev pub Ascending : ℕ → List ℕ → Type 0
Ascending low [] = Unit
Ascending low (t ∷ ts) = (low ≤ t) × (t < 2 ^ 32) × Ascending t ts

abbrev pub last_of : ℕ → List ℕ → ℕ
last_of t [] = t
last_of t (u ∷ ts) = last_of u ts

-- From `r` to `s`: at most `n` more calls, and the same time of the last publication.
record Grows {W : Type 0} (n : ℕ) (r s : Running W) : Type 0 where
  pub most : length s.calls ≤ length r.calls + n
  pub stamp : s.g.last_ptp_ms ≡ r.g.last_ptp_ms

module _ {W : Type 0} (io : Platform W) where
  publish-Grows : (m : Message) (r : Running W) → Grows 1 r (publish io m r)
  unfolding publish
  publish-Grows m r =
      either (Grows 1 r) (not r.g.connected) (λ e. record { most = omega arith; stamp = refl })
        (λ e.
          either (Grows 1 r) (io.mqtt_publish m r.world).0
            (λ f. record { most = omega arith; stamp = refl })
            (λ f. record { most = omega arith; stamp = refl }))

  publish_json-Grows :
      (to : List ℕ) (a : ℕ × (ℕ → ℕ) × W) (r : Running W) → Grows 1 r (publish_json io to a r)
  unfolding publish_json
  publish_json-Grows to (n, buf, w) r =
      either (Grows 1 r) (ltb 0 n)
        (λ e. let p = publish-Grows _ _ in record { most = p.most; stamp = p.stamp })
        (λ e. record { most = omega arith; stamp = refl })

  -- A publication moves the time of the last one by a period at least, and leaves less than one to `t`.
  record Paced (t : ℕ) (r s : Running W) : Type 0 where
    pub rate : length s.calls * 1000 + r.g.last_ptp_ms ≤ length r.calls * 1000 + s.g.last_ptp_ms
    pub past : s.g.last_ptp_ms ≤ t
    pub near : t < s.g.last_ptp_ms + 1000

  ptp_due-Paced :
      (t : ℕ) (r : Running W) → r.g.last_ptp_ms ≤ t → t < 2 ^ 32 → Paced t r (ptp_due io t r)
  unfolding ptp_due publish_ptp elapsed
  ptp_due-Paced t r before word =
      let next = (r.g.last_ptp_ms + ptp_period_ms) % 2 ^ 32 in
      let last = if leb ptp_period_ms (elapsed next t) then t else next in
      either (Paced t r) (leb ptp_period_ms (elapsed r.g.last_ptp_ms t))
        (λ due.
          let g =
            publish_json-Grows r.g.t_ptp (io.ptp_json r.g.scratch reply_max r.world)
              (record r { g = record r.g { last_ptp_ms = last } }) in
          let low : r.g.last_ptp_ms + 1000 ≤ last = ground arith in
          let high : last ≤ t = ground arith in
          let close : t < last + 1000 = ground arith in
          record {
            rate = omega (arith, g.most, g.stamp, low);
            past = omega (arith, g.stamp, high);
            near = omega (arith, g.stamp, close);
          })
        (λ early. record { rate = omega arith; past = before; near = ground arith })

  -- The publications that are due at each of the times.
  unfoldable pub ptp_due_at : List ℕ → Running W → Running W
  ptp_due_at [] r = r
  ptp_due_at (t ∷ ts) r = ptp_due_at ts (ptp_due io t r)

  -- The number of calls is bounded by the time that has passed, and the last period has begun.
  pub record Bounded (t : ℕ) (r s : Running W) : Type 0 where
    pub rate : (length s.calls - length r.calls) * 1000 ≤ t - r.g.last_ptp_ms
    pub near : t < s.g.last_ptp_ms + 1000

  slots :
      (ts : List ℕ) (t : ℕ) (r : Running W)
      → r.g.last_ptp_ms ≤ t
      → t < r.g.last_ptp_ms + 1000
      → Ascending t ts
      → Paced (last_of t ts) r (ptp_due_at ts r)
  unfolding ptp_due_at
  slots [] t r before close order = record { rate = omega arith; past = before; near = close }
  slots (u ∷ ts) t r before close (later, word, rest) =
      let a = ptp_due-Paced u r (omega arith) word in
      let b = slots ts u (ptp_due io u r) a.past a.near rest in
      record { rate = omega (arith, a.rate, b.rate); past = b.past; near = b.near }

  -- At some times in order, the first of them not before the last publication of the state of the PTP
  -- clock and none of which wraps around, flint_mqtt_service publishes that state at most once for each full
  -- second from that last publication to the last of the times, and the second that began with the last one
  -- that it counts is not over.
  pub ptp_due_at-Bounded :
      (t : ℕ) (ts : List ℕ) (r : Running W)
      → Ascending r.g.last_ptp_ms (t ∷ ts)
      → Bounded (last_of t ts) r (ptp_due_at (t ∷ ts) r)
  unfolding ptp_due_at
  ptp_due_at-Bounded t ts r (later, word, rest) =
      let a = ptp_due-Paced t r later word in
      let b = slots ts t (ptp_due io t r) a.past a.near rest in
      record { rate = omega (arith, a.rate, b.rate, b.past); near = b.near }
