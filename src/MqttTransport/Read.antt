-- ===== src/MqttTransport/Read.antt =====
-- Reading from the ring takes the bytes from its front.
use flint_rtos.Base.{
  ℕ, zero, suc, ◌+◌, ◌-◌, ◌%◌, ◌^◌, ◌<◌, min, ◌≡◌, refl, sym, arith, ap, ◌∙◌, ◌==◌, ltb,
  if◌then◌else◌, List, ◌∷◌, ◌++◌, length, Bool-cases, inl, inr,
}
use flint_rtos.Int.{ℤ, pos, negsuc, of_word}
use flint_rtos.MqttTransport.{Network, ring_used, is_up, drain, recv_now, pumped, recv}
use flint_rtos.MqttTransport.Ring.{ring_bytes, pending, IsRing, ring_bytes-same}

-- The ring without its first byte.
step-pending :
    (n : ℕ) (c : Network)
    → ring_used c ≡ suc n
    → pending c ≡ c.rx (c.rx_tail % 4096) ∷ ring_bytes n ((c.rx_tail + 1) % 2 ^ 32) c.rx
unfolding ring_bytes
step-pending n c e = rw e (
    ap (λ l. c.rx (c.rx_tail % 4096) ∷ l)
      (ring_bytes-same n (c.rx_tail + 1) ((c.rx_tail + 1) % 2 ^ 32) c.rx (omega arith)))

used-step :
    (n : ℕ) (c : Network)
    → IsRing c
    → ring_used c ≡ suc n
    → ring_used (record c { rx_tail = (c.rx_tail + 1) % 2 ^ 32 }) ≡ n
unfolding ring_used
used-step n c v e = omega (arith, v.head, v.tail, e)

-- What a loop of reads takes, and what it leaves.
pub record Taken (room : ℕ) (c : Network) (r : List ℕ × Network) : Type 0 where
  pub bytes : r.0 ++ pending r.1 ≡ pending c
  pub count : length r.0 ≡ min room (ring_used c)
  pub ring : IsRing r.1

drain-Taken : (room : ℕ) (c : Network) → IsRing c → Taken room c (drain room c)
unfolding drain
drain-Taken zero c v = record { bytes = refl; count = omega arith; ring = v }
drain-Taken (suc room) c v = elim (Bool-cases (ltb 0 (ring_used c))) [
  | inl e ↦
      let n = ring_used c - 1 in
      let some_used : ring_used c ≡ suc n = ground (arith, e) in
      let c1 = record c { rx_tail = (c.rx_tail + 1) % 2 ^ 32 } in
      let left = used-step n c v some_used in
      let v1 : IsRing c1 = record {
        head = v.head;
        tail = omega arith;
        used = omega (arith, left, some_used, v.used);
      } in
      let rest = drain-Taken room c1 v1 in
      rw e (record {
        bytes =
            ap (λ l. c.rx (c.rx_tail % 4096) ∷ l)
              (rest.bytes ∙ ap (λ k. ring_bytes k c1.rx_tail c.rx) left)
            ∙ sym (step-pending n c some_used);
        count = omega (arith, rest.count, left, some_used);
        ring = rest.ring;
      })
  | inr e ↦
      let nothing : ring_used c ≡ 0 = ground (arith, e) in
      rw e (record { bytes = refl; count = omega (arith, nothing); ring = v })
]

-- The bytes and the answer of a read.
pub record Received (len : ℕ) (c : Network) (r : ℤ × List ℕ × Network) : Type 0 where
  pub taken : Taken len c (r.1, r.2)
  pub answer : r.0 ≡ (
      if ring_used c == 0
      then (if is_up c then pos 0 else negsuc 0)
      else pos (min len (ring_used c)))

recv_now-Received : (len : ℕ) (c : Network) → IsRing c → Received len c (recv_now len c)
unfolding recv_now
recv_now-Received len c v =
    let done = drain-Taken len c v in
    elim (Bool-cases (ring_used c == 0)) [
      | inl e ↦
          let nothing : ring_used c ≡ 0 = ground (arith, e) in
          rw e (record {
            taken = record { bytes = refl; count = omega (arith, nothing); ring = v };
            answer = rw e refl;
          })
      | inr e ↦
          let small : length (drain len c).0 < 2 ^ 31 = omega (arith, done.count, v.used) in
          rw e (record {
            taken = record { bytes = done.bytes; count = done.count; ring = done.ring };
            answer = rw e (word-pos (length (drain len c).0) small ∙ ap pos done.count);
          })
    ]
  where
    word-pos : (n : ℕ) → n < 2 ^ 31 → of_word 32 (n % 2 ^ 32) ≡ pos n
    word-pos n small = ground arith

-- On a ring that is valid once fm_plat_pump has run, if nothing was pending before, mqtt_transport_recv hands
-- out the first of the pending bytes, as many as are wanted or all there are, and leaves the others in
-- their order on a valid ring; it answers their number, or, if there are none, 0 while the connection is
-- up and -1 otherwise.
pub recv-Received :
    (pump : Network → Network) (len : ℕ) (c : Network)
    → IsRing (pumped pump c)
    → Received len (pumped pump c) (recv pump len c)
unfolding recv
recv-Received pump len c v = recv_now-Received len (pumped pump c) v
