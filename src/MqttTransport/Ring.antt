-- ===== src/MqttTransport/Ring.antt =====
-- The ring is a queue of bytes.
use flint_rtos.Base.{
  ℕ, zero, suc, ◌+◌, ◌-◌, ◌%◌, ◌^◌, ◌≤◌, ◌<◌, ◌≡◌, refl, ==_refl, ==_ne, sym, arith, ap, ap₂, ◌∙◌,
  true, false, ◌==◌, ltb, if◌then◌else◌, update, some, List, [], ◌∷◌, ◌++◌, length, length-append,
  Bool-cases, inl, inr,
}
use mathlib.Core.List.{append_assoc, append-nil}
use flint_rtos.MqttTransport.{
  Network, ring_used, ring_free, store, store_buffer, store_chain, kept, acknowledged, on_recv,
}

-- The `n` bytes of a ring from the place `t` on.
unfoldable pub ring_bytes : ℕ → ℕ → (ℕ → ℕ) → List ℕ
ring_bytes zero t rx = []
ring_bytes (suc n) t rx = rx (t % 4096) ∷ ring_bytes n (t + 1) rx

-- The bytes that have been received and not yet read, the first one first.
abbrev pub pending : Network → List ℕ
pending c = ring_bytes (ring_used c) c.rx_tail c.rx

-- The indices are words, and no more bytes are in use than the ring has.
pub record IsRing (c : Network) : Type 0 where
  pub head : c.rx_head < 2 ^ 32
  pub tail : c.rx_tail < 2 ^ 32
  pub used : ring_used c ≤ 4096

-- The bytes of a chain, one buffer after the other.
abbrev pub chain_bytes : List (List ℕ) → List ℕ
chain_bytes [] = []
chain_bytes (q ∷ qs) = q ++ chain_bytes qs

ring_bytes-update :
    (n t p v : ℕ) (rx : ℕ → ℕ)
    → ((k : ℕ) → k < n → ((t + k) % 4096 == p) ≡ false)
    → ring_bytes n t (update rx p v) ≡ ring_bytes n t rx
unfolding ring_bytes
ring_bytes-update zero t p v rx apart = refl
ring_bytes-update (suc n) t p v rx apart =
    let here : (t % 4096 == p) ≡ false =
      ap (λ k. k % 4096 == p) (omega arith) ∙ apart 0 (omega arith) in
    let later =
      ring_bytes-update n (t + 1) p v rx
        (λ k lt. ap (λ j. j % 4096 == p) (omega arith) ∙ apart (suc k) (omega arith)) in
    ap₂ ◌∷◌ (rw here refl) later

ring_bytes-last :
    (n t : ℕ) (rx : ℕ → ℕ) → ring_bytes (suc n) t rx ≡ ring_bytes n t rx ++ rx ((t + n) % 4096) ∷ []
unfolding ring_bytes
ring_bytes-last zero t rx = ap (λ k. rx (k % 4096) ∷ []) (omega arith)
ring_bytes-last (suc n) t rx =
    ap (λ l. rx (t % 4096) ∷ l)
      (ring_bytes-last n (t + 1) rx
        ∙ ap (λ k. ring_bytes n (t + 1) rx ++ rx (k % 4096) ∷ []) (omega arith))

-- Places that are the same modulo the size of the ring hold the same bytes.
pub ring_bytes-same :
    (n t s : ℕ) (rx : ℕ → ℕ) → t % 4096 ≡ s % 4096 → ring_bytes n t rx ≡ ring_bytes n s rx
unfolding ring_bytes
ring_bytes-same zero t s rx e = refl
ring_bytes-same (suc n) t s rx e =
    ap₂ ◌∷◌ (ap rx e) (ring_bytes-same n (t + 1) (s + 1) rx (omega arith))

-- The place of the next byte is behind the pending ones.
used-place : (c : Network) → IsRing c → (c.rx_tail + ring_used c) % 4096 ≡ c.rx_head % 4096
unfolding ring_used
used-place c v = omega (arith, v.head, v.tail)

used-store :
    (b : ℕ) (c : Network)
    → IsRing c
    → ring_used c < 4096
    → ring_used (store b c) ≡ suc (ring_used c)
unfolding ring_used store
used-store b c v room = omega (arith, v.head, v.tail, room)

store-IsRing : (b : ℕ) (c : Network) → IsRing c → ring_used c < 4096 → IsRing (store b c)
store-IsRing b c v room = record {
  head = store_head b c;
  tail = store_tail b c v.tail;
  used = rw (used-store b c v room) (omega (arith, room));
}
  where
    store_head : (b : ℕ) (c : Network) → (store b c).rx_head < 2 ^ 32
    store_head b c = unfold store in omega arith

    store_tail : (b : ℕ) (c : Network) → c.rx_tail < 2 ^ 32 → (store b c).rx_tail < 2 ^ 32
    store_tail b c lt = unfold store in lt

bytes-store :
    (b n : ℕ) (c : Network)
    → n < 4096
    → (c.rx_tail + n) % 4096 ≡ c.rx_head % 4096
    → ring_bytes (suc n) (store b c).rx_tail (store b c).rx ≡ ring_bytes n c.rx_tail c.rx ++ b ∷ []
unfolding store
bytes-store b n c room place =
    let rx' = update c.rx (c.rx_head % 4096) b in
    let written : rx' ((c.rx_tail + n) % 4096) ≡ b =
      rw place (rw (==_refl (c.rx_head % 4096)) refl) in
    let others = ring_bytes-update n c.rx_tail (c.rx_head % 4096) b c.rx (λ k lt.
      ==_ne ((c.rx_tail + k) % 4096) (c.rx_head % 4096)
        (λ e. absurd (omega (arith, e, place, lt, room)))) in
    ring_bytes-last n c.rx_tail rx' ∙ ap₂ (λ l v. l ++ v ∷ []) others written

store-pending :
    (b : ℕ) (c : Network)
    → IsRing c
    → ring_used c < 4096
    → pending (store b c) ≡ pending c ++ b ∷ []
store-pending b c v room =
    rw (used-store b c v room) (bytes-store b (ring_used c) c room (used-place c v))

-- What a loop of stores leaves.
record Appended (c : Network) (bs : List ℕ) (c' : Network) : Type 0 where
  ring : IsRing c'
  bytes : pending c' ≡ pending c ++ bs
  used : ring_used c' ≡ ring_used c + length bs

store_buffer-Appended :
    (bs : List ℕ) (c : Network)
    → IsRing c
    → ring_used c + length bs ≤ 4096
    → Appended c bs (store_buffer bs c)
unfolding store_buffer
store_buffer-Appended [] c v room = record {
  ring = v;
  bytes = sym (append-nil (pending c));
  used = omega arith;
}
store_buffer-Appended (b ∷ bs) c v room =
    let one = used-store b c v (omega arith) in
    let rest =
      store_buffer-Appended bs (store b c) (store-IsRing b c v (omega arith))
        (omega (arith, one, room)) in
    record {
      ring = rest.ring;
      bytes =
          rest.bytes
          ∙ ap (λ l. l ++ bs) (store-pending b c v (omega arith))
          ∙ append_assoc (pending c) (b ∷ []) bs;
      used = rest.used ∙ omega (arith, one);
    }

store_chain-Appended :
    (qs : List (List ℕ)) (c : Network)
    → IsRing c
    → ring_used c + length (chain_bytes qs) ≤ 4096
    → Appended c (chain_bytes qs) (store_chain qs c)
unfolding store_chain
store_chain-Appended [] c v room = record {
  ring = v;
  bytes = sym (append-nil (pending c));
  used = omega arith;
}
store_chain-Appended (q ∷ qs) c v room =
    let total = length-append q (chain_bytes qs) in
    let first = store_buffer-Appended q c v (omega (arith, total, room)) in
    let rest =
      store_chain-Appended qs (store_buffer q c) first.ring
        (omega (arith, total, room, first.used)) in
    record {
      ring = rest.ring;
      bytes =
          rest.bytes
          ∙ ap (λ l. l ++ chain_bytes qs) first.bytes
          ∙ append_assoc (pending c) q (chain_bytes qs);
      used = rest.used ∙ omega (arith, total, first.used);
    }

-- For a chain of buffers whose total length is that of its bytes, on a valid ring: if the ring has room for
-- it, on_recv acknowledges its length and puts its bytes behind the pending ones; if not, the answer is
-- ERR_MEM and nothing is stored. The ring stays valid.
pub on_recv-pending :
    (tot_len : ℕ) (qs : List (List ℕ)) (c : Network)
    → IsRing c
    → tot_len ≡ length (chain_bytes qs)
    → ((on_recv (some (tot_len, qs)) c).0
        ≡ (if ltb 4096 (ring_used c + tot_len) then kept else acknowledged tot_len))
      × (pending (on_recv (some (tot_len, qs)) c).1
          ≡ (if ltb 4096 (ring_used c + tot_len) then pending c else pending c ++ chain_bytes qs))
      × IsRing (on_recv (some (tot_len, qs)) c).1
unfolding on_recv
on_recv-pending tot_len qs c v total =
    let space : ring_free c ≡ 4096 - ring_used c = free-space c v in
    elim (Bool-cases (ltb 4096 (ring_used c + tot_len))) [
      | inl full ↦
          let refused : ltb (ring_free c) tot_len ≡ true = ground (arith, space, full, v.used) in
          rw (refused, full) (refl, refl, v)
      | inr room ↦
          let fits : ltb (ring_free c) tot_len ≡ false = ground (arith, space, room) in
          let enough : ring_used c + tot_len ≤ 4096 = ground (arith, room) in
          let done = store_chain-Appended qs c v (omega (arith, total, enough)) in
          rw (fits, room) (refl, done.bytes, done.ring)
    ]
  where
    free-space : (c : Network) → IsRing c → ring_free c ≡ 4096 - ring_used c
    free-space c v = unfold ring_free in omega (arith, v.used)
