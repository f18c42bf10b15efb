-- ===== src/MqttClient/Phase.antt =====
-- The order of the calls of the transport and of coreMQTT, as an automaton, and what every call of the
-- service keeps: that order, the bounds of the delay between attempts, and a reply that ends in its buffer.
use flint_rtos.Base.{
  ℕ, ◌+◌, ◌≤◌, ◌<◌, ◌≡◌, refl, ◌∙◌, arith, ap, sym, Bool, true, false, not, ◌==◌, ltb,
  if◌then◌else◌, Option, none, some, List, [], ◌∷◌, either, true-false, ◌&&◌, length, take,
}
use flint_rtos.Int.{ℤ, pos_part, neg_part}
use flint_rtos.MqttClient.State.{
  codes, reply_max, Message, Packet, Platform, Running, Call, open_call, close_call, init_call,
  connect_call, subscribe_call, publish_call, process_call, FlintMqtt, read_ms, publish,
  publish_json, publish_status_online, build_status,
}
use flint_rtos.MqttClient.Command.{
  word_eq, space_at, reply_json, with_reply, reply_led, reply_uptime, answer_to, handle_command,
  command_of, one_command_more, on_info, on_event, on_events, set_reply_simple,
}
use flint_rtos.MqttClient.Reply.{Ends, set_reply_simple-Ends, set_reply_uptime-Ends}

pub data Phase : Type 0 where
  offline : Phase
  opened : Phase
  initialised : Phase
  online : Phase

-- What may be called in a phase, and the phase after the call.
unfoldable pub next : Phase → Call → Option Phase
next offline (open_call ok) = some (if ok then opened else offline)
next opened (init_call ok) = some (if ok then initialised else opened)
next initialised (connect_call ok m) = some (if ok then online else initialised)
next online (subscribe_call t) = some online
next online (publish_call m) = some online
next online (process_call ok) = some online
next p close_call = some offline
next p c = none

unfoldable pub replay : List Call → Option Phase
replay [] = some offline
replay (c ∷ cs) = elim (replay cs) [ none ↦ none | some p ↦ next p c ]

abbrev pub phase_of : Bool → Phase
phase_of true = online
phase_of false = offline

-- The calls are in order and have led to the phase; the delay is in its bounds; a pending reply ends.
pub record IsValid (p : Phase) (g : FlintMqtt) (calls : List Call) : Type 0 where
  pub phase : replay calls ≡ some p
  pub low : 2000 ≤ g.backoff_ms
  pub high : g.backoff_ms ≤ 60000
  pub reply : g.reply_pending ≡ true → Ends g.reply

-- The JSON that a service reports ends in the buffer that it is given.
pub record EndsJson {W : Type 0} (io : Platform W) : Type 0 where
  pub ptp :
      (buf : ℕ → ℕ) (w : W)
      → 0 < (io.ptp_json buf reply_max w).0
      → Ends (io.ptp_json buf reply_max w).1
  pub stats :
      (buf : ℕ → ℕ) (w : W)
      → 0 < (io.stats_json buf reply_max w).0
      → Ends (io.stats_json buf reply_max w).1

pub after :
    (p q : Phase) (c : Call) (cs : List Call)
    → replay cs ≡ some p
    → next p c ≡ some q
    → replay (c ∷ cs) ≡ some q
unfolding replay
after p q c cs before step = rw before step

module _ {W : Type 0} (io : Platform W) (laws : EndsJson io) where
  abbrev pub Sound : Running W → Type 0
  Sound r = IsValid (phase_of r.g.connected) r.g r.calls

  online_step :
      (b : Bool) (c : Call) (cs : List Call)
      → not b ≡ false
      → next online c ≡ some online
      → replay cs ≡ some (phase_of b)
      → replay (c ∷ cs) ≡ some (phase_of b)
  online_step true c cs on step before = after online online c cs before step
  online_step false c cs on step before = absurd (true-false on)

  pub publish-Sound : (m : Message) (r : Running W) → Sound r → Sound (publish io m r)
  unfolding publish next
  publish-Sound m r v =
      let a = io.mqtt_publish m r.world in
      either Sound (not r.g.connected) (λ off. v)
        (λ on.
          let order = online_step r.g.connected (publish_call m) r.calls on refl v.phase in
          either Sound a.0
            (λ e. record { phase = order; low = v.low; high = v.high; reply = v.reply })
            (λ e. record { phase = order; low = v.low; high = v.high; reply = v.reply }))

  pub publish_json-Sound :
      (to : List ℕ) (a : ℕ × (ℕ → ℕ) × W) (r : Running W) → Sound r → Sound (publish_json io to a r)
  unfolding publish_json
  publish_json-Sound to (n, buf, w) r v =
      let written : Running W = record r { world = w; g = record r.g { scratch = buf } } in
      let s : Sound written = record {
        phase = v.phase;
        low = v.low;
        high = v.high;
        reply = v.reply;
      } in
      either Sound (ltb 0 n) (λ e. publish-Sound _ written s) (λ e. s)

  pub publish_status_online-Sound : (r : Running W) → Sound r → Sound (publish_status_online io r)
  unfolding publish_status_online build_status read_ms
  publish_status_online-Sound r v =
      publish-Sound _ _ (record { phase = v.phase; low = v.low; high = v.high; reply = v.reply })

  -- What answering a command keeps, and that the reply that it leaves ends.
  pub record Answered (r s : Running W) : Type 0 where
    pub calls : s.calls ≡ r.calls
    pub connected : s.g.connected ≡ r.g.connected
    pub backoff : s.g.backoff_ms ≡ r.g.backoff_ms
    pub ends : Ends s.g.reply

  written-Answered :
      (w : W) (buf : ℕ → ℕ) (r : Running W)
      → Ends buf
      → Answered r (with_reply io buf (record r { world = w }))
  written-Answered w buf r e = record { calls = refl; connected = refl; backoff = refl; ends = e }

  simple-Answered :
      (cmd k v : List ℕ) (r : Running W)
      → Answered r (with_reply io (set_reply_simple cmd k v r.g.reply) r)
  simple-Answered cmd k v r = written-Answered r.world _ r (set_reply_simple-Ends cmd k v r.g.reply)

  reply_json-Answered :
      (cmd why : List ℕ) (a : ℕ × (ℕ → ℕ) × W) (r : Running W)
      → (0 < a.0 → Ends a.1)
      → Answered r (reply_json io cmd why a r)
  unfolding reply_json
  reply_json-Answered cmd why (n, buf, w) r law =
      either (Answered r) (n == 0)
        (λ e. written-Answered w _ r (set_reply_simple-Ends cmd (codes "error") why buf))
        (λ e. written-Answered w buf r (law (ground (arith, e))))

  reply_led-Answered :
      (cmd : List ℕ) (a : ℤ × W) (r : Running W) → Answered r (reply_led io cmd a r)
  unfolding reply_led
  reply_led-Answered cmd (a, w) r =
      either (Answered r) (neg_part a == 2)
        (λ e.
          written-Answered w _ r
            (set_reply_simple-Ends cmd (codes "error") (codes "use: led on|off|toggle") r.g.reply))
        (λ e. written-Answered w _ r (
          set_reply_simple-Ends cmd (codes "led")
            (if pos_part a + neg_part a == 0 then codes "off" else codes "on") r.g.reply))

  reply_uptime-Answered : (cmd : List ℕ) (r : Running W) → Answered r (reply_uptime io cmd r)
  unfolding reply_uptime read_ms
  reply_uptime-Answered cmd r = written-Answered _ _ r (set_reply_uptime-Ends cmd _ r.g.reply)

  pub answer_to-Answered : (cmd : List ℕ) (r : Running W) → Answered r (answer_to io cmd r)
  unfolding answer_to
  answer_to-Answered cmd r =
      let sp = space_at cmd in
      let led = codes "led" in
      either (Answered r) (word_eq cmd (codes "ping")) (λ e. simple-Answered cmd _ _ r)
        (λ e.
          either (Answered r) (word_eq cmd (codes "uptime")) (λ e. reply_uptime-Answered cmd r)
            (λ e.
              either (Answered r) (word_eq cmd (codes "stats"))
                (λ e. reply_json-Answered cmd _ _ r (laws.stats r.g.reply r.world))
                (λ e.
                  either (Answered r) (word_eq cmd (codes "ptp"))
                    (λ e. reply_json-Answered cmd _ _ r (laws.ptp r.g.reply r.world))
                    (λ e.
                      either (Answered r) (word_eq (take sp cmd) led && ltb sp (length cmd))
                        (λ e. reply_led-Answered cmd _ r)
                        (λ e.
                          either (Answered r) (word_eq cmd (codes "help"))
                            (λ e. simple-Answered cmd _ _ r) (λ e. simple-Answered cmd _ _ r))))))

  pub handle_command-Sound : (p : List ℕ) (r : Running W) → Sound r → Sound (handle_command io p r)
  unfolding handle_command
  handle_command-Sound p r v =
      let a = answer_to-Answered (command_of p) (one_command_more io r) in
      record {
        phase = ap replay a.calls ∙ (v.phase ∙ ap (λ b. some (phase_of b)) (sym a.connected));
        low = omega (arith, a.backoff, v.low);
        high = omega (arith, a.backoff, v.high);
        reply = λ e. a.ends;
      }

  on_info-Sound :
      (b : Bool) (i : Option (List ℕ × List ℕ)) (r : Running W) → Sound r → Sound (on_info io b i r)
  unfolding on_info
  on_info-Sound b none r v = v
  on_info-Sound b (some (name, payload)) r v =
      either Sound (b && word_eq name r.g.t_cmd) (λ e. handle_command-Sound payload r v) (λ e. v)

  on_event-Sound : (k : Packet) (r : Running W) → Sound r → Sound (on_event io k r)
  unfolding on_event
  on_event-Sound k r v = on_info-Sound _ k.publish_info r v

  pub on_events-Sound : (ks : List Packet) (r : Running W) → Sound r → Sound (on_events io ks r)
  unfolding on_events
  on_events-Sound [] r v = v
  on_events-Sound (k ∷ ks) r v = on_events-Sound ks (on_event io k r) (on_event-Sound k r v)
