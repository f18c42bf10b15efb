-- ===== src/KernelList.antt =====
-- kernel/list.c and include/FlintRTOS/list.h: circular doubly linked lists with an end marker.
-- Memory is kept field by field. The items are at even addresses, the end marker of the list at
-- `l` at `2 * l + 1`, and NULL is 0, so that distinct objects have distinct addresses.
pub mod Seq
pub mod Seg
pub mod Valid
pub mod Splice
pub mod Insert
pub mod Remove
pub mod Rotate
pub mod Fields
use mathlib.Core.Option
use flint_rtos.Base.{ℕ, zero, suc, ◌+◌, ◌-◌, ◌*◌, ◌%◌, ◌^◌, Bool, ◌==◌, leb, if◌then◌else◌, update}
use flint_rtos.Base.{Option, none, some}

-- The fields of `ListItem_t` (and of the end marker, which has the first three), then those of
-- `List_t`: `count` is `uxNumberOfItems`.
pub record Memory : Type 0 where
  pub value : ℕ → ℕ
  pub next : ℕ → ℕ
  pub prev : ℕ → ℕ
  pub owner : ℕ → ℕ
  pub container : ℕ → ℕ
  pub count : ℕ → ℕ
  pub index : ℕ → ℕ

abbrev pub null : ℕ
null = 0

abbrev pub list_end : ℕ → ℕ
list_end l = 2 * l + 1

-- portMAX_DELAY of a 32-bit TickType_t.
abbrev pub max_delay : ℕ
max_delay = 0xffffffff

abbrev pub set_value : ℕ → ℕ → Memory → Memory
set_value a v m = record m { value = update m.value a v }

abbrev pub set_next : ℕ → ℕ → Memory → Memory
set_next a v m = record m { next = update m.next a v }

abbrev pub set_prev : ℕ → ℕ → Memory → Memory
set_prev a v m = record m { prev = update m.prev a v }

abbrev pub set_owner : ℕ → ℕ → Memory → Memory
set_owner a v m = record m { owner = update m.owner a v }

abbrev pub set_container : ℕ → ℕ → Memory → Memory
set_container a v m = record m { container = update m.container a v }

abbrev pub set_count : ℕ → ℕ → Memory → Memory
set_count l v m = record m { count = update m.count l v }

abbrev pub set_index : ℕ → ℕ → Memory → Memory
set_index l v m = record m { index = update m.index l v }

unfoldable pub initialise : ℕ → Memory → Memory
initialise l m0 =
    let m1 = set_index l (list_end l) m0 in
    let m2 = set_value (list_end l) max_delay m1 in
    let m3 = set_next (list_end l) (list_end l) m2 in
    let m4 = set_prev (list_end l) (list_end l) m3 in set_count l 0 m4

unfoldable pub initialise_item : ℕ → Memory → Memory
initialise_item n m0 =
    let m1 = set_container n null m0 in
    let m2 = set_owner n null m1 in
    let m3 = set_next n null m2 in let m4 = set_prev n null m3 in set_value n 0 m4

unfoldable pub insert_end : ℕ → ℕ → Memory → Memory
insert_end l n m0 =
    let index = m0.index l in
    let m1 = set_next n index m0 in
    let m2 = set_prev n (m1.prev index) m1 in
    let m3 = set_next (m2.prev index) n m2 in
    let m4 = set_prev index n m3 in
    let m5 = set_container n l m4 in set_count l ((m5.count l + 1) % 2 ^ 64) m5

-- The `for` loop of `vListInsert`; `none` means that the fuel ran out.
unfoldable pub walk : ℕ → Memory → ℕ → ℕ → Option ℕ
walk zero m v it = none
walk (suc fuel) m v it =
    let rest = walk fuel m v (m.next it) in if leb (m.value (m.next it)) v then rest else some it

unfoldable pub insert_after : ℕ → ℕ → ℕ → Memory → Memory
insert_after l n it m0 =
    let m1 = set_next n (m0.next it) m0 in
    let m2 = set_prev (m1.next n) n m1 in
    let m3 = set_prev n it m2 in
    let m4 = set_next it n m3 in
    let m5 = set_container n l m4 in set_count l ((m5.count l + 1) % 2 ^ 64) m5

-- Fuel for one round more than the list has items.
unfoldable pub insert_point : ℕ → ℕ → Memory → Option ℕ
unfolding walk
insert_point l v m =
    if v == max_delay then some (m.prev (list_end l)) else walk (m.count l + 1) m v (list_end l)

unfoldable pub insert : ℕ → ℕ → Memory → Option Memory
unfolding insert_point insert_after
insert l n m = Option.map (λ it. insert_after l n it m) (insert_point l (m.value n) m)

unfoldable pub remove : ℕ → Memory → ℕ × Memory
remove n m0 =
    let l = m0.container n in
    let m1 = set_prev (m0.next n) (m0.prev n) m0 in
    let m2 = set_next (m1.prev n) (m1.next n) m1 in
    let m3 = if m2.index l == n then set_index l (m2.prev n) m2 else m2 in
    let m4 = set_container n null m3 in
    let m5 = set_count l ((m4.count l + 2 ^ 64 - 1) % 2 ^ 64) m4 in (m5.count l, m5)

-- listLIST_IS_EMPTY, listGET_HEAD_ENTRY and listGET_OWNER_OF_NEXT_ENTRY.
unfoldable pub is_empty : ℕ → Memory → Bool
is_empty l m = m.count l == 0

unfoldable pub head_entry : ℕ → Memory → ℕ
head_entry l m = m.next (list_end l)

unfoldable pub owner_of_next_entry : ℕ → Memory → ℕ × Memory
owner_of_next_entry l m0 =
    let m1 = set_index l (m0.next (m0.index l)) m0 in
    let m2 = if m1.index l == list_end l then set_index l (m1.next (m1.index l)) m1 else m1 in
    (m2.owner (m2.index l), m2)
