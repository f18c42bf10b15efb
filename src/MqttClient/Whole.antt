-- ===== src/MqttClient/Whole.antt =====
-- The text of a reply, and that it is published whole.
use flint_rtos.Base.{
  ℕ, suc, ◌+◌, ◌*◌, ◌≤◌, ◌<◌, ◌≡◌, ◌≢◌, refl, ◌∙◌, arith, ap, sym, subst, true, false, not, ◌==◌,
  ◌||◌, ltb, Option, some, List, [], ◌∷◌, ◌++◌, length, length-append, get_or, either, true-false,
}
use flint_rtos.Clib.{strlen}
use flint_rtos.Clib.Text.{IsString, strlen_from-string}
use flint_rtos.Jsonw.{JsonW, init}
use flint_rtos.Jsonw.Bounded.{Shows, escape_c, escape, quoted}
use flint_rtos.Jsonw.Text.{run, run-init-Shows}
use flint_rtos.Jsonw.Room.{cap-run}
use flint_rtos.MqttClient.State.{
  codes, Platform, Running, Message, publish_call, payload_of, publish,
}
use flint_rtos.MqttClient.Command.{c_string, set_reply_simple, with_pending}
use flint_rtos.MqttClient.Service.{publish_reply}
use flint_rtos.MqttClient.Reply.{reply_calls}

-- No byte is 0.
abbrev NoZero : List ℕ → Type 0
NoZero [] = Unit
NoZero (c ∷ s) = (c ≢ 0) × NoZero s

append-NoZero : (s t : List ℕ) → NoZero s → NoZero t → NoZero (s ++ t)
append-NoZero [] t a b = b
append-NoZero (c ∷ s) t (here, rest) b = (here, append-NoZero s t rest b)

escape_c-NoZero : (c : ℕ) → NoZero (escape_c c)
escape_c-NoZero c =
    either NoZero (c == b'"' || c == 92) (λ e. (ground arith, (ground (arith, e), tt)))
      (λ e. either NoZero (ltb c 32) (λ f. (ground arith, tt)) (λ f. (ground (arith, f), tt)))

escape-NoZero : (s : List ℕ) → NoZero (escape s)
unfolding escape
escape-NoZero [] = tt
escape-NoZero (c ∷ s) = append-NoZero (escape_c c) (escape s) (escape_c-NoZero c) (escape-NoZero s)

quoted-NoZero : (s : List ℕ) → NoZero (quoted s)
unfolding quoted
quoted-NoZero s =
    (ground arith, append-NoZero (escape s) (b'"' ∷ []) (escape-NoZero s) (ground arith, tt))

escape_c-length : (c : ℕ) → length (escape_c c) ≤ 2
escape_c-length c = ground arith

length-escape : (s : List ℕ) → length (escape s) ≤ 2 * length s
unfolding escape
length-escape [] = omega arith
length-escape (c ∷ s) =
    omega (arith, length-append (escape_c c) (escape s), escape_c-length c, length-escape s)

length-quoted : (s : List ℕ) → length (quoted s) ≤ 2 * length s + 2
unfolding quoted
length-quoted s = omega (arith, length-append (escape s) (b'"' ∷ []), length-escape s)

-- The text of a reply: {"cmd":<cmd>,<k>:<v>}
abbrev pub reply_text : List ℕ → List ℕ × List ℕ → List ℕ
reply_text cmd (k, v) =
    b'{'
    ∷ (((quoted (codes "cmd") ++ b':' ∷ []) ++ quoted (c_string cmd))
        ++ (((b',' ∷ []) ++ ((quoted k ++ b':' ∷ []) ++ quoted v)) ++ b'}' ∷ []))

text-NoZero : (cmd : List ℕ) (kv : List ℕ × List ℕ) → NoZero (reply_text cmd kv)
text-NoZero cmd (k, v) =
    let first =
      append-NoZero (quoted (codes "cmd")) (b':' ∷ []) (quoted-NoZero (codes "cmd"))
        (ground arith, tt) in
    let second = append-NoZero (quoted k) (b':' ∷ []) (quoted-NoZero k) (ground arith, tt) in
    let member = append-NoZero (quoted k ++ b':' ∷ []) (quoted v) second (quoted-NoZero v) in
    let rest : NoZero ((b',' ∷ []) ++ ((quoted k ++ b':' ∷ []) ++ quoted v)) =
      (ground arith, member) in
    (
      ground arith,
      append-NoZero ((quoted (codes "cmd") ++ b':' ∷ []) ++ quoted (c_string cmd)) _
          (append-NoZero (quoted (codes "cmd") ++ b':' ∷ []) _ first (quoted-NoZero (c_string cmd)))
          (append-NoZero ((b',' ∷ []) ++ ((quoted k ++ b':' ∷ []) ++ quoted v)) (b'}' ∷ []) rest
            (ground arith, tt)),
    )

length-c_string : (s : List ℕ) → length (c_string s) ≤ length s
unfolding c_string
length-c_string [] = omega arith
length-c_string (c ∷ s) = let rest = length-c_string s in ground (arith, rest)

pub length-text :
    (cmd k v : List ℕ)
    → length cmd ≤ 47
    → length k + length v ≤ 60
    → length (reply_text cmd (k, v)) < 1024
length-text cmd k v short small =
    let keyed = quoted k ++ b':' ∷ [] in
    let named = quoted (codes "cmd") ++ b':' ∷ [] in
    omega (
      arith,
      length-append (named ++ quoted (c_string cmd))
          (((b',' ∷ []) ++ (keyed ++ quoted v)) ++ b'}' ∷ []),
      length-append named (quoted (c_string cmd)),
      length-append (quoted (codes "cmd")) (b':' ∷ []),
      length-append ((b',' ∷ []) ++ (keyed ++ quoted v)) (b'}' ∷ []),
      length-append keyed (quoted v),
      length-append (quoted k) (b':' ∷ []),
      length-quoted (codes "cmd"),
      length-quoted (c_string cmd),
      length-quoted k,
      length-quoted v,
      length-c_string cmd,
    )

IsString-shown :
    (t : List ℕ) (p : ℕ) (m : ℕ → ℕ)
    → NoZero t
    → ((i : ℕ) → i < length t → m (p + i) ≡ get_or t i 0)
    → m (p + length t) ≡ 0
    → IsString t p m
IsString-shown [] p m some_byte shown end = ap m (omega arith) ∙ end
IsString-shown (c ∷ t) p m (here, rest) shown end = (
  ap m (omega arith) ∙ shown 0 (omega arith),
  here,
  IsString-shown t (p + 1) m rest (λ i lt. ap m (omega arith) ∙ shown (suc i) (omega arith))
      (ap m (omega arith) ∙ end),
)

payload_of-IsString :
    (t : List ℕ) (p : ℕ) (m : ℕ → ℕ) → IsString t p m → payload_of m p (length t) ≡ t
unfolding payload_of
payload_of-IsString [] p m is = refl
payload_of-IsString (c ∷ t) p m (here, more, rest) =
    rw (here, payload_of-IsString t (p + 1) m rest) refl

-- The reply in its buffer is the whole text.
pub set_reply_simple-IsString :
    (cmd k v : List ℕ) (buf : ℕ → ℕ)
    → length cmd ≤ 47
    → length k + length v ≤ 60
    → IsString (reply_text cmd (k, v)) 0 (set_reply_simple cmd k v buf)
unfolding set_reply_simple init
set_reply_simple-IsString cmd k v buf short small =
    let text = reply_text cmd (k, v) in
    let w : JsonW = run (reply_calls cmd k v) (init buf 1024) in
    let s : Shows buf w text = run-init-Shows buf 1024 (reply_calls cmd k v) (omega arith) in
    let room : w.cap ≡ 1024 = cap-run (reply_calls cmd k v) (init buf 1024) in
    let fits = length-text cmd k v short small in
    let all : w.len ≡ length text = omega (arith, s.len, room, fits) in
    IsString-shown text 0 w.buf (text-NoZero cmd (k, v))
      (λ i lt. ap w.buf (omega arith) ∙ s.bytes i (omega (arith, all, lt)))
      (ap w.buf (omega (arith, all)) ∙ s.end)

-- The answer is a state that differs by the publication of the message, with no reply pending.
pub record Publishes {W : Type 0} (m : Message) (r : Running W) (a : Option (Running W))
    : Type 0 where
  pub result : Running W
  pub returned : a ≡ some result
  pub calls : result.calls ≡ publish_call m ∷ r.calls
  pub idle : result.g.reply_pending ≡ false

module _ {W : Type 0} (io : Platform W) where
  publish-calls :
      (m : Message) (r : Running W)
      → r.g.connected ≡ true
      → ((publish io m r).calls ≡ publish_call m ∷ r.calls)
        × ((publish io m r).g.reply_pending ≡ r.g.reply_pending)
  unfolding publish
  publish-calls m r on =
      let told : Running W → Type 0 =
        λ s. (s.calls ≡ publish_call m ∷ r.calls) × (s.g.reply_pending ≡ r.g.reply_pending) in
      either told (not r.g.connected) (λ off. absurd (true-false (sym off ∙ ap not on)))
        (λ e. either told (io.mqtt_publish m r.world).0 (λ f. (refl, refl)) (λ f. (refl, refl)))

  pub publish_reply-Publishes :
      (text : List ℕ) (r : Running W)
      → IsString text 0 r.g.reply
      → length text < 1024
      → r.g.reply_pending ≡ true
      → r.g.connected ≡ true
      → Publishes
          (record { topic = r.g.t_reply; payload = text; retain = false })
          r
          (publish_reply io r)
  unfolding publish_reply strlen
  publish_reply-Publishes text r is short pending on =
      let m : Message = record { topic = r.g.t_reply; payload = text; retain = false } in
      let long =
        strlen_from-string 1024 0 0 text r.g.reply
          (subst (λ p. IsString text p r.g.reply) (omega arith) is) short in
      let told = publish-calls m (with_pending io false r) on in
      let whole : payload_of r.g.reply 0 (0 + length text) ≡ text =
        ap (payload_of r.g.reply 0) (omega arith) ∙ payload_of-IsString text 0 r.g.reply is in
      either (Publishes m r) r.g.reply_pending
        (λ e.
          rw (long, whole)
            (record {
              result = publish io m (with_pending io false r);
              returned = refl;
              calls = told.0;
              idle = told.1;
            }))
        (λ e. absurd (true-false (sym pending ∙ e)))
