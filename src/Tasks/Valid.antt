-- ===== src/Tasks/Valid.antt =====
-- The invariant of the scheduler: which items stand in which list.
use flint_rtos.Base.{
  ◌^◌, length, ℕ, ◌+◌, ◌/◌, ◌%◌, ◌≤◌, ◌<◌, ◌≡◌, ◌⊎◌, List, true, leb, if◌then◌else◌,
}
use flint_rtos.KernelList.{Memory, max_delay}
use flint_rtos.KernelList.Seq.{has}
use flint_rtos.KernelList.Insert.{Holds}
use flint_rtos.Tasks.{Kernel, ready}

-- Where an item may stand: state items in the ready list of their task's priority, in the delayed
-- list or in the suspended list, event items in the waiting lists of the queues.
pub record Placed (k : Kernel) (l x : ℕ) : Type 0 where
  pub owned : k.mem.owner x ≡ x / 4
  pub kind : x % 4 ≡ (if leb 35 l then 2 else 0)
  pub level : (33 ≤ l) ⊎ (k.priority (x / 4) + 1 ≡ l)

-- `held` is what the lists hold, at the addresses below `bound`.
pub record IsValid (bound : ℕ) (k : Kernel) (held : ℕ → List ℕ) : Type 0 where
  pub lists : Holds k.mem bound held
  pub wide : 35 ≤ bound
  pub words : (a : ℕ) → k.mem.value a ≤ max_delay
  pub placed : (l x : ℕ) → 0 < l → l < bound → has x (held l) ≡ true → Placed k l x
  pub homes : (l x : ℕ) → 0 < l → l < bound → k.mem.container x ≡ l → has x (held l) ≡ true
  pub inside : (x : ℕ) → k.mem.container x < bound
  pub in_range : (t : ℕ) → k.priority t < 32
  pub top_in : k.top_ready < 32
  pub top : (p x : ℕ) → k.top_ready < p → p < 32 → has x (held (ready p)) ≡ true → ⊥

abbrev pub with_mem : Memory → Kernel → Kernel
with_mem m k = record k { mem = m }

-- Every list can take one more item.
abbrev pub HasRoom : ℕ → (ℕ → List ℕ) → Type 0
HasRoom bound held = (l : ℕ) → 0 < l → l < bound → length (held l) + 2 < 2 ^ 64
