-- ===== src/Examples/KernelList.antt =====
-- The list at address 1, with the items 2, 4 and 6.
use flint_rtos.Base.{
  ℕ, ◌≤◌, ◌<◌, ◌≡◌, refl, arith, ◌==◌, if◌then◌else◌, List, [], length, update, some,
}
use flint_rtos.KernelList.{Memory, max_delay, initialise, insert_end, insert, remove}
use flint_rtos.KernelList.Seq.{insert_before, insert_sorted, erase}
use flint_rtos.KernelList.Splice.{Joined}
use flint_rtos.KernelList.Valid.{IsFree, initialise-IsList}
use flint_rtos.KernelList.Insert.{Holds, insert_end-Holds, insert-Holds}
use flint_rtos.KernelList.Remove.{Left, remove-Holds}

-- Items 2, 4 and 6 have the values 8, 4 and 8, and no item is in a list.
abbrev blank : Memory
blank = record {
  value = λ a. if a == 4 then 4 else 8;
  next = λ a. 0;
  prev = λ a. 0;
  owner = λ a. a;
  container = λ a. 0;
  count = λ l. 0;
  index = λ l. 0;
}

abbrev m0 : Memory
m0 = initialise 1 blank

only_one : (l : ℕ) → 0 < l → l < 2 → l ≡ 1
only_one l pos lt = omega arith

m0-Holds : Holds m0 2 (λ l. [])
m0-Holds l pos lt = rw (only_one l pos lt) (initialise-IsList 1 blank)

abbrev m1 : Memory
m1 = insert_end 1 2 m0

abbrev held1 : ℕ → List ℕ
held1 = update (λ l. []) 1 (insert_before (m0.index 1) 2 [])

m1-Holds : Holds m1 2 held1
unfolding initialise
m1-Holds = insert_end-Holds m0-Holds 1 2 (omega arith) (omega arith) (ground arith) (omega arith)

insert_end-Holds_example : Holds m1 2 held1
unfolding initialise
insert_end-Holds_example =
    insert_end-Holds m0-Holds 1 2 (omega arith) (omega arith) (ground arith) (omega arith)

value_small : (a : ℕ) → m1.value a ≤ max_delay
unfolding initialise insert_end
value_small a = ground arith

-- The item with the smaller value goes in front.
insert-Holds_example :
    (m' : Memory) × (insert 1 4 m1 ≡ some m')
    × Joined m1 m' 1 4
    × Holds m' 2 (update held1 1 (insert_sorted m1.value (m1.value 4) 4 (held1 1)))
unfolding initialise insert_end insert_before
insert-Holds_example =
    insert-Holds m1-Holds 1 4 (omega arith) (omega arith) (ground arith) (omega arith) value_small

remove-Holds_example :
    Holds (remove 2 m1).1 2 (update held1 1 (erase 2 (held1 1)))
    × IsFree (remove 2 m1).1 2
    × ((remove 2 m1).0 ≡ length (erase 2 (held1 1)))
    × Left m1 (remove 2 m1).1 1 2
unfolding insert_before
remove-Holds_example = remove-Holds m1-Holds 1 2 (omega arith) (omega arith) refl
