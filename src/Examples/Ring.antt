-- ===== src/Examples/Ring.antt =====
-- A ring whose indices are about to wrap around, in the middle of which a chain of two buffers comes in.
use flint_rtos.Base.{
  ℕ, ◌+◌, ◌-◌, ◌%◌, ◌^◌, ◌≡◌, refl, arith, true, ltb, if◌then◌else◌, some, List, [], ◌∷◌, ◌++◌,
}
use flint_rtos.MqttTransport.{Network, ts_up, ring_used, kept, acknowledged, on_recv, pumped, recv}
use flint_rtos.MqttTransport.Ring.{pending, IsRing, chain_bytes, on_recv-pending}
use flint_rtos.MqttTransport.Read.{Received, recv-Received}

abbrev ring : Network
ring = record { pcb = true; state = ts_up; rx = λ i. i % 7; rx_head = 1; rx_tail = 2 ^ 32 - 2 }

ring-IsRing : IsRing ring
unfolding ring_used
ring-IsRing = record { head = omega arith; tail = omega arith; used = omega arith }

abbrev chain : List (List ℕ)
chain = (10 ∷ 20 ∷ []) ∷ (30 ∷ []) ∷ []

on_recv-pending_example :
    ((on_recv (some (3, chain)) ring).0
      ≡ (if ltb 4096 (ring_used ring + 3) then kept else acknowledged 3))
    × (pending (on_recv (some (3, chain)) ring).1 ≡ (
        if ltb 4096 (ring_used ring + 3) then pending ring else pending ring ++ chain_bytes chain))
    × IsRing (on_recv (some (3, chain)) ring).1
on_recv-pending_example = on_recv-pending 3 chain ring ring-IsRing refl

recv-Received_example : Received 2 (pumped (λ c. c) ring) (recv (λ c. c) 2 ring)
recv-Received_example = recv-Received (λ c. c) 2 ring (unfold pumped ring_used in ring-IsRing)
