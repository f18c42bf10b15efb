-- ===== src/MqttClient/Command.antt =====
-- port/mqtt/flint_mqtt.c: the commands that arrive on the topic of commands, and the reply that they leave.
use Prim.Native.Nat.{bit_and}
use flint_rtos.Base.{
  ℕ, zero, suc, ◌+◌, ◌/◌, Bool, true, false, not, ◌==◌, ◌&&◌, ◌||◌, ltb, if◌then◌else◌, Option,
  none, some, List, [], ◌∷◌, length, take, drop, get_or,
}
use flint_rtos.Int.{ℤ, pos, negsuc, pos_part, neg_part}
use flint_rtos.Jsonw.{init, obj_open, obj_close, str, u32}
use flint_rtos.MqttClient.State.{
  codes, reply_max, Packet, Platform, Running, count_up, elapsed, read_ms,
}

-- The loop of `word_eq`.
unfoldable pub equal_bytes : List ℕ → List ℕ → Bool
equal_bytes [] b = true
equal_bytes (c ∷ a) [] = true
equal_bytes (c ∷ a) (d ∷ b) = if not (c == d) then false else equal_bytes a b

unfoldable pub word_eq : List ℕ → List ℕ → Bool
word_eq a b = if not (length a == length b) then false else equal_bytes a b

abbrev pub is_blank : ℕ → Bool
is_blank c = c == b' ' || c == 10 || c == 13 || c == 9

-- The loops of `handle_command` that move `s` up and `e` down, with the bytes from `p + s` on.
unfoldable pub skip_blanks : List ℕ → List ℕ
skip_blanks [] = []
skip_blanks (c ∷ p) = if is_blank c then skip_blanks p else c ∷ p

unfoldable pub end_of : ℕ → List ℕ → ℕ
end_of zero p = 0
end_of (suc e) p = if is_blank (get_or p e 0) then end_of e p else suc e

-- The `len` bytes of `cmd`.
unfoldable pub command_of : List ℕ → List ℕ
command_of p =
    let from = skip_blanks p in
    let n = end_of (length from) from in take (if ltb n 47 then n else 47) from

unfoldable pub space_at : List ℕ → ℕ
space_at [] = 0
space_at (c ∷ cmd) = if not (c == b' ') then suc (space_at cmd) else 0

-- `cmd` as a string, which a byte 0 in the command ends.
unfoldable pub c_string : List ℕ → List ℕ
c_string [] = []
c_string (c ∷ cmd) = if c == 0 then [] else c ∷ c_string cmd

unfoldable pub set_reply_simple : List ℕ → List ℕ → List ℕ → (ℕ → ℕ) → ℕ → ℕ
set_reply_simple cmd k v buf =
    let w0 = obj_open (init buf reply_max) in
    let w1 = str (some (codes "cmd")) (c_string cmd) w0 in (obj_close (str (some k) v w1)).buf

unfoldable pub set_reply_uptime : List ℕ → ℕ → (ℕ → ℕ) → ℕ → ℕ
set_reply_uptime cmd s buf =
    let w0 = obj_open (init buf reply_max) in
    let w1 = str (some (codes "cmd")) (c_string cmd) w0 in
    (obj_close (u32 (some (codes "uptime_s")) s w1)).buf

module _ {W : Type 0} (io : Platform W) where
  abbrev pub with_reply : (ℕ → ℕ) → Running W → Running W
  with_reply buf r = record r { g = record r.g { reply = buf } }

  abbrev pub reply_error : List ℕ → List ℕ → Running W → Running W
  reply_error cmd why r = with_reply (set_reply_simple cmd (codes "error") why r.g.reply) r

  -- A service that writes the reply itself, and what is answered if it has nothing to report.
  unfoldable pub reply_json : List ℕ → List ℕ → ℕ × (ℕ → ℕ) × W → Running W → Running W
  reply_json cmd why (n, buf, w) r =
      let written = with_reply buf (record r { world = w }) in
      if n == 0 then reply_error cmd why written else written

  -- The answer of fm_plat_led, or -2 for an argument that is not known.
  unfoldable pub led_answer : List ℕ → W → ℤ × W
  led_answer arg w =
      if word_eq arg (codes "on")
      then io.led (pos 1) w
      else if word_eq arg (codes "off")
      then io.led (pos 0) w
      else if word_eq arg (codes "toggle")
      then io.led (negsuc 0) w
      else (negsuc 1, w)

  unfoldable pub reply_led : List ℕ → ℤ × W → Running W → Running W
  reply_led cmd (a, w) r =
      let moved = record r { world = w } in
      if neg_part a == 2
      then reply_error cmd (codes "use: led on|off|toggle") moved
      else with_reply
          (set_reply_simple cmd (codes "led")
            (if pos_part a + neg_part a == 0 then codes "off" else codes "on") r.g.reply)
          moved

  unfoldable pub reply_uptime : List ℕ → Running W → Running W
  reply_uptime cmd r =
      let now = read_ms io r in
      with_reply (set_reply_uptime cmd (elapsed r.g.boot_ms now.0 / 1000) r.g.reply) now.1

  -- The chain of tests of `handle_command`.
  unfoldable pub answer_to : List ℕ → Running W → Running W
  answer_to cmd r =
      let sp = space_at cmd in
      if word_eq cmd (codes "ping")
      then with_reply (set_reply_simple cmd (codes "reply") (codes "pong") r.g.reply) r
      else if word_eq cmd (codes "uptime")
      then reply_uptime cmd r
      else if word_eq cmd (codes "stats")
      then reply_json cmd (codes "unavailable") (io.stats_json r.g.reply reply_max r.world) r
      else if word_eq cmd (codes "ptp")
      then reply_json cmd (codes "PTP not running") (io.ptp_json r.g.reply reply_max r.world) r
      else if word_eq (take sp cmd) (codes "led") && ltb sp (length cmd)
      then reply_led cmd (led_answer (drop (sp + 1) cmd) r.world) r
      else if word_eq cmd (codes "help")
      then with_reply
          (set_reply_simple cmd (codes "commands")
            (codes "ping, uptime, stats, ptp, led on|off|toggle, help") r.g.reply)
          r
      else reply_error cmd (codes "unknown command (try: help)") r

  abbrev pub with_pending : Bool → Running W → Running W
  with_pending b r = record r { g = record r.g { reply_pending = b } }

  abbrev pub one_command_more : Running W → Running W
  one_command_more r = record r {
    g = record r.g { st = record r.g.st { commands = count_up r.g.st.commands } };
  }

  unfoldable pub handle_command : List ℕ → Running W → Running W
  handle_command p r = with_pending true (answer_to (command_of p) (one_command_more r))

  -- `on_event` for what pPublishInfo points to, and whether the packet is a publication.
  unfoldable pub on_info : Bool → Option (List ℕ × List ℕ) → Running W → Running W
  on_info is_publish none r = r
  on_info is_publish (some (name, payload)) r =
      if is_publish && word_eq name r.g.t_cmd then handle_command payload r else r

  -- The type of a publication is in the upper half of the byte.
  unfoldable pub on_event : Packet → Running W → Running W
  on_event k r = on_info (bit_and k.type_byte 0xf0 == 0x30) k.publish_info r

  unfoldable pub on_events : List Packet → Running W → Running W
  on_events [] r = r
  on_events (k ∷ ks) r = on_events ks (on_event k r)
