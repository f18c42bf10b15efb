-- ===== src/MqttClient/Said.antt =====
-- The replies that a command gets without a service of the platform, from the command to the publication.
use flint_rtos.Base.{
  ℕ, ◌+◌, ◌≤◌, ◌≡◌, refl, arith, ap, sym, subst, Bool, true, false, ◌&&◌, ◌||◌, ltb, if◌then◌else◌,
  Option, none, some, List, length, take, drop, length-take,
}
use flint_rtos.MqttClient.State.{codes, reply_max, Platform, Running}
use flint_rtos.MqttClient.Command.{
  word_eq, space_at, command_of, set_reply_simple, with_reply, with_pending, reply_uptime,
  reply_json, reply_led, led_answer, answer_to, one_command_more, handle_command, skip_blanks,
  end_of,
}
use flint_rtos.MqttClient.Service.{publish_reply}
use flint_rtos.MqttClient.Whole.{
  reply_text, length-text, set_reply_simple-IsString, Publishes, publish_reply-Publishes,
}

-- The member, key and value, that such a command is answered with.
abbrev pong : List ℕ × List ℕ
pong = (codes "reply", codes "pong")

abbrev usage : List ℕ × List ℕ
usage = (codes "commands", codes "ping, uptime, stats, ptp, led on|off|toggle, help")

abbrev unknown : List ℕ × List ℕ
unknown = (codes "error", codes "unknown command (try: help)")

abbrev is_led : List ℕ → Bool
is_led cmd = word_eq (take (space_at cmd) cmd) (codes "led") && ltb (space_at cmd) (length cmd)

abbrev picked : Bool → Bool → Bool → Bool → Bool → Bool → Option (List ℕ × List ℕ)
picked ping uptime stats ptp led help =
    if ping
    then some pong
    else if uptime || stats || ptp || led
    then none
    else if help
    then some usage
    else some unknown

abbrev pub said : List ℕ → Option (List ℕ × List ℕ)
said cmd =
    picked (word_eq cmd (codes "ping")) (word_eq cmd (codes "uptime")) (word_eq cmd (codes "stats"))
      (word_eq cmd (codes "ptp")) (is_led cmd) (word_eq cmd (codes "help"))

some-injective {ℓ} : {A : Type ℓ} {x y : A} → some x ≡ some y → x ≡ y
some-injective {x} {y} e = ap (λ o. elim o [ none ↦ x | some z ↦ z ]) e

none-some {ℓ} : {A : Type ℓ} {x : A} → none ≡ some x → ⊥
none-some e = subst (λ o. elim o [ none ↦ Unit {0} | some z ↦ ⊥ ]) e tt

-- What the chain of tests picks, if it is one of the three.
chain :
    {A : Type 0} (f : List ℕ × List ℕ → A) (u s p l : A) (a b c d e h : Bool) (kv : List ℕ × List ℕ)
    → picked a b c d e h ≡ some kv
    → (if a
        then f pong
        else if b
        then u
        else if c
        then s
        else if d
        then p
        else if e
        then l
        else if h
        then f usage
        else f unknown)
      ≡ f kv
chain f u s p l true b c d e h kv is = ap f (some-injective is)
chain f u s p l false true c d e h kv is = absurd (none-some is)
chain f u s p l false false true d e h kv is = absurd (none-some is)
chain f u s p l false false false true e h kv is = absurd (none-some is)
chain f u s p l false false false false true h kv is = absurd (none-some is)
chain f u s p l false false false false false true kv is = ap f (some-injective is)
chain f u s p l false false false false false false kv is = ap f (some-injective is)

-- A test of two lists that holds of the three holds of what is picked.
picked-short :
    (a b c d e h : Bool) (kv : List ℕ × List ℕ)
    → picked a b c d e h ≡ some kv
    → length kv.0 + length kv.1 ≤ 60
picked-short true b c d e h kv is =
    subst (λ p. length p.0 + length p.1 ≤ 60) (some-injective is) (omega arith)
picked-short false true c d e h kv is = absurd (none-some is)
picked-short false false true d e h kv is = absurd (none-some is)
picked-short false false false true e h kv is = absurd (none-some is)
picked-short false false false false true h kv is = absurd (none-some is)
picked-short false false false false false true kv is =
    subst (λ p. length p.0 + length p.1 ≤ 60) (some-injective is) (omega arith)
picked-short false false false false false false kv is =
    subst (λ p. length p.0 + length p.1 ≤ 60) (some-injective is) (omega arith)

length-command_of : (p : List ℕ) → length (command_of p) ≤ 47
unfolding command_of
length-command_of p =
    let from = skip_blanks p in
    let n = end_of (length from) from in
    let short = length-take (if ltb n 47 then n else 47) from in ground (arith, short)

module _ {W : Type 0} (io : Platform W) where
  answer_to-said :
      (cmd : List ℕ) (r : Running W) (kv : List ℕ × List ℕ)
      → said cmd ≡ some kv
      → answer_to io cmd r ≡ with_reply io (set_reply_simple cmd kv.0 kv.1 r.g.reply) r
  unfolding answer_to
  answer_to-said cmd r kv is =
      chain (λ m. with_reply io (set_reply_simple cmd m.0 m.1 r.g.reply) r) (reply_uptime io cmd r)
        (reply_json io cmd (codes "unavailable") (io.stats_json r.g.reply reply_max r.world) r)
        (reply_json io cmd (codes "PTP not running") (io.ptp_json r.g.reply reply_max r.world) r)
        (reply_led io cmd (led_answer io (drop (space_at cmd + 1) cmd) r.world) r)
        (word_eq cmd (codes "ping")) (word_eq cmd (codes "uptime")) (word_eq cmd (codes "stats"))
        (word_eq cmd (codes "ptp")) (is_led cmd) (word_eq cmd (codes "help")) kv is

  -- Let a command, without the blanks around it and cut to 47 bytes, be one that needs no service: "ping",
  -- "help", or none that is known. On a connected client, handle_command leaves a reply that the next
  -- publication of it publishes whole, on the topic of replies and not retained: an object with the command,
  -- as "cmd", and the answer to it.
  pub handle_command-Publishes :
      (p : List ℕ) (r : Running W) (kv : List ℕ × List ℕ)
      → said (command_of p) ≡ some kv
      → r.g.connected ≡ true
      → Publishes
          (record { topic = r.g.t_reply; payload = reply_text (command_of p) kv; retain = false })
          r
          (publish_reply io (handle_command io p r))
  unfolding handle_command
  handle_command-Publishes p r kv is on =
      let cmd = command_of p in
      let short = length-command_of p in
      let small =
        picked-short (word_eq cmd (codes "ping")) (word_eq cmd (codes "uptime"))
          (word_eq cmd (codes "stats")) (word_eq cmd (codes "ptp")) (is_led cmd)
          (word_eq cmd (codes "help")) kv is in
      let next : Running W =
        with_pending io true
          (with_reply io (set_reply_simple cmd kv.0 kv.1 r.g.reply) (one_command_more io r)) in
      let told =
        publish_reply-Publishes io (reply_text cmd kv) next
          (set_reply_simple-IsString cmd kv.0 kv.1 r.g.reply short small)
          (length-text cmd kv.0 kv.1 short small) refl on in
      subst
        (λ s.
          Publishes (record { topic = r.g.t_reply; payload = reply_text cmd kv; retain = false }) r
            (publish_reply io (with_pending io true s)))
        (sym (answer_to-said cmd (one_command_more io r) kv is))
        (record {
          result = told.result;
          returned = told.returned;
          calls = told.calls;
          idle = told.idle;
        })
