-- ===== src/MqttClient/Reply.antt =====
-- The text of a reply, and that it ends in its buffer.
use flint_rtos.Base.{
  ℕ, zero, suc, ◌+◌, ◌≤◌, ◌<◌, ◌≡◌, ◌≢◌, ◌∙◌, arith, ap, some, List, [], ◌∷◌, ==_decides, inl, inr,
}
use flint_rtos.Clib.{strlen, strlen_from}
use flint_rtos.Jsonw.{init}
use flint_rtos.Jsonw.Text.{Op, open_object, close_object, string, unsigned, run, run-init-Shows}
use flint_rtos.Jsonw.Room.{cap-run}
use flint_rtos.MqttClient.State.{codes, reply_max}
use flint_rtos.MqttClient.Command.{set_reply_simple, set_reply_uptime, c_string}

-- There is a terminator in the buffer.
pub record Ends (buf : ℕ → ℕ) : Type 0 where
  pub at : ℕ
  pub inside : at < 1024
  pub zero_byte : buf at ≡ 0

strlen_from-ends :
    (fuel n at : ℕ) (buf : ℕ → ℕ)
    → at < n + fuel
    → n ≤ at
    → buf at ≡ 0
    → (k : ℕ) × (strlen_from fuel n 0 buf ≡ some k)
unfolding strlen_from
strlen_from-ends zero n at buf inside from z = absurd (omega arith)
strlen_from-ends (suc fuel) n at buf inside from z = elim (==_decides (buf n) 0) [
  | inl e ↦ (n, ground (arith, e))
  | inr ne ↦
      let differ : n ≢ at = λ e. ne (ap buf e ∙ z) in
      let rest = strlen_from-ends fuel (n + 1) at buf (omega arith) (ground (arith, differ)) z in
      (rest.0, ground (arith, rest.1, ne))
]

pub strlen-Ends : (buf : ℕ → ℕ) → Ends buf → (k : ℕ) × (strlen reply_max 0 buf ≡ some k)
unfolding strlen
strlen-Ends buf e =
    strlen_from-ends 1024 0 e.at buf (omega (arith, e.inside)) (omega arith) e.zero_byte

-- The calls that write a reply.
abbrev pub reply_calls : List ℕ → List ℕ → List ℕ → List Op
reply_calls cmd k v =
    open_object ∷ string (some (codes "cmd")) (c_string cmd) ∷ string (some k) v ∷ close_object ∷ []

abbrev pub uptime_calls : List ℕ → ℕ → List Op
uptime_calls cmd s =
    open_object
    ∷ string (some (codes "cmd")) (c_string cmd)
    ∷ unsigned (some (codes "uptime_s")) s
    ∷ close_object
    ∷ []

run-Ends : (os : List Op) (buf : ℕ → ℕ) → Ends (run os (init buf 1024)).buf
unfolding init
run-Ends os buf =
    let w = run os (init buf 1024) in
    let s = run-init-Shows buf 1024 os (omega arith) in
    let room : w.cap ≡ 1024 = cap-run os (init buf 1024) in
    record { at = w.len; inside = omega (arith, s.len, s.some_room, room); zero_byte = s.end }

pub set_reply_simple-Ends : (cmd k v : List ℕ) (buf : ℕ → ℕ) → Ends (set_reply_simple cmd k v buf)
unfolding set_reply_simple
set_reply_simple-Ends cmd k v buf = run-Ends (reply_calls cmd k v) buf

pub set_reply_uptime-Ends : (cmd : List ℕ) (s : ℕ) (buf : ℕ → ℕ) → Ends (set_reply_uptime cmd s buf)
unfolding set_reply_uptime
set_reply_uptime-Ends cmd s buf = run-Ends (uptime_calls cmd s) buf
