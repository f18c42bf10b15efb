-- ===== src/KernelList/Valid.antt =====
-- When memory holds a list, and how two lists are apart.
use flint_rtos.Base.{ℕ, ◌%◌, ◌^◌, ◌<◌, ◌≡◌, ◌≢◌, arith, ◌∙◌}
use flint_rtos.Base.{true, false, ◌==◌, ◌||◌, Bool-cases, inl, inr, List, [], length}
use flint_rtos.KernelList.{Memory, list_end, max_delay, initialise, initialise_item}
use flint_rtos.KernelList.Seq.{has, Distinct}
use flint_rtos.KernelList.Seg.{Seg, Seg-frame}

-- The list at `l` holds the items `xs`, from the end marker's successor on.
pub record IsList (m : Memory) (l : ℕ) (xs : List ℕ) : Type 0 where
  pub ring : Seg m (list_end l) xs (list_end l)
  pub distinct : Distinct xs
  pub items : (x : ℕ) → has x xs ≡ true → (x % 2 ≡ 0) × (0 < x) × (m.container x ≡ l)
  pub count : m.count l ≡ length xs
  pub small : length xs < 2 ^ 64
  pub sentinel : m.value (list_end l) ≡ max_delay
  pub cursor : (m.index l == list_end l || has (m.index l) xs) ≡ true

-- An item that is in no list.
abbrev pub IsFree : Memory → ℕ → Type 0
IsFree m n = (n % 2 ≡ 0) × (0 < n) × (m.container n ≡ 0)

module _ {m : Memory} {l : ℕ} {xs : List ℕ} (is : IsList m l xs) where
  pub end_out : (k : ℕ) → has (list_end k) xs ≡ false
  end_out k = elim (Bool-cases (has (list_end k) xs)) [
    | inl h ↦ absurd (omega (arith, is.items (list_end k) h))
    | inr h ↦ h
  ]

  pub free_out : (n : ℕ) → 0 < l → IsFree m n → has n xs ≡ false
  free_out n pos free = elim (Bool-cases (has n xs)) [
    | inl h ↦ absurd (omega (arith, is.items n h))
    | inr h ↦ h
  ]

-- `l` is not disturbed: its nodes and its own fields are as they were.
pub record Undisturbed (m m' : Memory) (l : ℕ) (xs : List ℕ) : Type 0 where
  pub next_kept : (a : ℕ) → (a == list_end l || has a xs) ≡ true → m'.next a ≡ m.next a
  pub prev_kept : (a : ℕ) → (a == list_end l || has a xs) ≡ true → m'.prev a ≡ m.prev a
  pub container_kept : (a : ℕ) → has a xs ≡ true → m'.container a ≡ m.container a
  pub value_kept : m'.value (list_end l) ≡ m.value (list_end l)
  pub count_kept : m'.count l ≡ m.count l
  pub index_kept : m'.index l ≡ m.index l

pub Undisturbed-IsList :
    {m m' : Memory} {l : ℕ} {xs : List ℕ} → Undisturbed m m' l xs → IsList m l xs → IsList m' l xs
Undisturbed-IsList {m} {m'} {l} {xs} u is = record {
  ring = Seg-frame m m' (list_end l) xs (list_end l) u.next_kept u.prev_kept is.ring;
  distinct = is.distinct;
  items = λ x h. omega (arith, is.items x h, u.container_kept x h);
  count = u.count_kept ∙ is.count;
  small = is.small;
  sentinel = u.value_kept ∙ is.sentinel;
  cursor = rw u.index_kept is.cursor;
}

-- Nodes of different lists are different.
pub apart :
    {m : Memory} {l k : ℕ} {xs ys : List ℕ} (a b : ℕ)
    → IsList m l xs
    → IsList m k ys
    → l ≢ k
    → (a == list_end l || has a xs) ≡ true
    → (b == list_end k || has b ys) ≡ true
    → a ≢ b
apart {m} {l} {k} {xs} {ys} a b is js ne ha hb e =
    ground (arith, is.items a, js.items b, end_out is k, end_out js l)

-- `vListInitialise` makes an empty list.
pub initialise-IsList : (l : ℕ) (m : Memory) → IsList (initialise l m) l []
unfolding initialise
initialise-IsList l m = record {
  ring = (ground arith, ground arith);
  distinct = tt;
  items = λ x h. absurd (ground arith);
  count = ground arith;
  small = omega arith;
  sentinel = ground arith;
  cursor = ground arith;
}

pub initialise_item-IsFree :
    (n : ℕ) (m : Memory) → n % 2 ≡ 0 → 0 < n → IsFree (initialise_item n m) n
unfolding initialise_item
initialise_item-IsFree n m even pos = (even, pos, ground arith)
