-- ===== src/Transfer/Running.antt =====
-- Which task runs does not change when lists or priorities do.
use mathlib.Core.Option
use flint_rtos.Base.{
  ℕ, ◌≡◌, refl, Bool, true, false, not, ◌==◌, ◌||◌, ltb, if◌then◌else◌, Option, none, some,
}
use flint_rtos.KernelList
use flint_rtos.KernelList.{Memory, max_delay, is_empty}
use flint_rtos.Tasks.{
  Kernel, ◌>>=◌, ready, state_item, event_item, add_to_ready, reprioritise, priority_inherit,
  priority_disinherit, sleep, place_on_event_list, remove_from_event_list,
}
use flint_rtos.Transfer.{System, inherits}

either-current :
    (b : Bool) (k x y : Kernel)
    → x.current ≡ k.current
    → y.current ≡ k.current
    → (if b then x else y).current ≡ k.current
either-current true k x y ex ey = ex
either-current false k x y ex ey = ey

either-second :
    (b : Bool) (k : Kernel) (x y : Bool × Kernel)
    → x.1.current ≡ k.current
    → y.1.current ≡ k.current
    → (if b then x else y).1.current ≡ k.current
either-second true k x y ex ey = ex
either-second false k x y ex ey = ey

reprioritise-current : (t new : ℕ) (k : Kernel) → (reprioritise t new k).current ≡ k.current
unfolding reprioritise add_to_ready
reprioritise-current t new k =
    either-current (k.mem.container (state_item t) == ready (k.priority t)) k _ _ refl refl

pub disinherit-current : (t : ℕ) (k : Kernel) → (priority_disinherit t k).1.current ≡ k.current
unfolding priority_disinherit
disinherit-current t k = either-second (t == 0) k _ _ refl (
    either-second (not (k.priority t == k.base_priority t)) k _ _
      (reprioritise-current t (k.base_priority t) k) refl)

pub remove-current : (l : ℕ) (k : Kernel) → (remove_from_event_list l k).1.current ≡ k.current
unfolding remove_from_event_list add_to_ready
remove-current l k = either-second (is_empty l k.mem) k _ _ refl refl

inherit-current : (t : ℕ) (k : Kernel) → (priority_inherit t k).current ≡ k.current
unfolding priority_inherit
inherit-current t k = either-current (t == 0 || k.current == 0) k _ _ refl (
    either-current (not k.inherit_enabled) k _ _ refl (
      either-current (ltb (k.priority t) (k.priority k.current)) k _ _
        (reprioritise-current t (k.priority k.current) k) refl))

pub inherits-current : (s : System) → (inherits s).current ≡ s.kernel.current
unfolding inherits
inherits-current s = either-current s.is_mutex s.kernel _ _ (inherit-current s.holder s.kernel) refl

bind-keeps :
    {A : Type 0} (o : Option A) (f : A → Option Kernel) (k : Kernel)
    → ((a : A) → (Option.get_or (f a) k).current ≡ k.current)
    → (Option.get_or (o >>= f) k).current ≡ k.current
bind-keeps none f k h = refl
bind-keeps (some a) f k h = h a

pub place-current :
    (l ticks : ℕ) (k : Kernel)
    → (Option.get_or (place_on_event_list l ticks k) k).current ≡ k.current
unfolding place_on_event_list
place-current l ticks k = bind-keeps (KernelList.insert l (event_item k.current) _) _ k (λ m2.
    bind-keeps {A = Memory} (if ticks == max_delay then some _ else sleep k.current ticks k m2) _ k
      (λ m3. refl))
