-- ===== src/Transfer/Attempt.antt =====
-- A call that sends or receives ends with one attempt, in the state it starts from or in the one in
-- which it is awake again.
use mathlib.Core.Option
use flint_rtos.Base.{
  ℕ, ◌≤◌, ◌<◌, ◌≡◌, inl, inr, refl, Bool, ◌==◌, ◌||◌, Bool-cases, Option, some, List, ap, sym, ◌∙◌,
}
use flint_rtos.Tasks.{Kernel, state_item, event_item, place_on_event_list}
use flint_rtos.Tasks.Valid.{HasRoom, IsValid}
use flint_rtos.Tasks.Block.{place_on_event_list-Waits}
use flint_rtos.Transfer.Running.{place-current, inherits-current}
use flint_rtos.Transfer.{
  System, with_kernel, has_space, has_item, try_send, send, try_receive, receive, inherits,
}

-- The running task of `k` can go to sleep on the list at `l`: it stands in a list of tasks, and waits
-- for no event.
pub record CanBlock (k : Kernel) (l : ℕ) : Type 0 where
  pub bound : ℕ
  pub held : ℕ → List ℕ
  pub valid : IsValid bound k held
  pub room : HasRoom bound held
  pub running : 0 < k.current
  pub listed : 0 < k.mem.container (state_item k.current)
  pub high : 35 ≤ l
  pub low : l < bound
  pub no_event : k.mem.container (event_item k.current) ≡ 0
  pub owner : k.mem.owner (event_item k.current) ≡ k.current

CanBlock-blocks :
    (k : Kernel) (l ticks : ℕ)
    → CanBlock k l
    → (k' : Kernel) × (place_on_event_list l ticks k ≡ some k') × (k'.current ≡ k.current)
CanBlock-blocks k l ticks c =
    let (k', e, w) =
      place_on_event_list-Waits c.valid c.room c.running c.listed l c.high c.low c.no_event c.owner
        ticks in
    (k', e, sym (ap (λ o. (Option.get_or o k).current) e) ∙ place-current l ticks k)

-- The state of a caller that went to sleep in `s` and runs again.
pub record Resumed (others : ℕ → System → System) (s s' : System) : Type 0 where
  pub kernel : Kernel
  pub stays : kernel.current ≡ (others 0 s).kernel.current
  pub same : s' ≡ others 1 (with_kernel kernel (others 0 s))

module _ (others : ℕ → System → System) where
  -- The state in which the last attempt of the call is made.
  pub data Last (s : System) : System → Type 0 where
    at_once : Last s s
    later : {s' : System} → Resumed others s s' → Last s s'

  pub send-Last :
      (item : Option (ℕ → ℕ)) (ticks : ℕ) (to_front : Bool) (s : System)
      → CanBlock (others 0 s).kernel (others 0 s).to_send
      → (s' : System) × Last s s'
        × (send others item ticks to_front s ≡ some (try_send others item to_front s'))
  unfolding send
  send-Last item ticks to_front s can = elim (Bool-cases (has_space s || ticks == 0)) [
    | inl e ↦ (s, at_once, rw e refl)
    | inr e ↦
        let (k', placed, stays) =
          CanBlock-blocks (others 0 s).kernel (others 0 s).to_send ticks can in
        (_, later (record { kernel = k'; stays = stays; same = refl }), rw (e, placed) refl)
  ]

  pub receive-Last :
      (into : ℕ → ℕ) (ticks : ℕ) (s : System)
      → CanBlock (inherits (others 0 s)) (others 0 s).to_receive
      → (s' : System) × Last s s'
        × (receive others into ticks s ≡ some (try_receive others into s'))
  unfolding receive
  receive-Last into ticks s can = elim (Bool-cases (has_item s || ticks == 0)) [
    | inl e ↦ (s, at_once, rw e refl)
    | inr e ↦
        let (k', placed, stays) =
          CanBlock-blocks (inherits (others 0 s)) (others 0 s).to_receive ticks can in
        (
          _,
          later
              (record { kernel = k'; stays = stays ∙ inherits-current (others 0 s); same = refl }),
          rw (e, placed) refl,
        )
  ]
