-- ===== src/Examples/Queue.antt =====
-- A queue with two slots of three bytes.
use flint_rtos.Base.{ℕ, ◌+◌, ◌-◌, ◌<◌, ◌≡◌, refl, arith, true, false, ◌==◌, if◌then◌else◌, some}
use flint_rtos.Queue.{Queue, create, copy_in, copy_out, put_back, put_front, copy_bytes}
use flint_rtos.Queue.Deque.{Contains, copy_in-back, copy_in-front}
use flint_rtos.Queue.Receive.{create-Contains, copy_out-Contains}

abbrev zeros : ℕ → ℕ
zeros a = 0

abbrev nothing : ℕ → ℕ → ℕ
nothing j i = 0

abbrev made : Queue
made = create zeros 2 3

made-Contains : Contains made 0 nothing
made-Contains =
    create-Contains zeros 2 3 nothing (omega arith) (omega arith) (omega arith) (omega arith)

abbrev first_item : ℕ → ℕ
first_item i = i + 10

abbrev second_item : ℕ → ℕ
second_item i = i + 20

abbrev one_held : ℕ → ℕ → ℕ
one_held j = if j == 0 then first_item else nothing j

one-Contains : Contains (copy_in (some first_item) false made) 1 one_held
unfolding create
one-Contains = copy_in-back made-Contains first_item (omega arith)

copy_in-back_example : Contains (copy_in (some first_item) false made) 1 one_held
unfolding create
copy_in-back_example = copy_in-back made-Contains first_item (omega arith)

abbrev two : Queue
two = copy_in (some second_item) true (copy_in (some first_item) false made)

abbrev two_held : ℕ → ℕ → ℕ
two_held j = if j == 0 then second_item else one_held (j - 1)

two-Contains : Contains two 2 two_held
unfolding create copy_in put_back
two-Contains = copy_in-front one-Contains second_item (omega arith)

copy_out-Contains_example :
    Contains (copy_out zeros two).1 1 (λ j. two_held (j + 1))
    × ((i : ℕ) → i < two.item_size → (copy_out zeros two).0 i ≡ two_held 0 i)
copy_out-Contains_example = copy_out-Contains two-Contains zeros

-- The second byte of the item at the front.
front_byte : (copy_out zeros two).0 1 ≡ 21
unfolding create copy_in put_back put_front copy_out copy_bytes
front_byte = refl
