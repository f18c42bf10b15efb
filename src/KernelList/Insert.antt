-- ===== src/KernelList/Insert.antt =====
-- `vListInsertEnd` and `vListInsert` on all lists of a memory at once.
use flint_rtos.Base.{ℕ, zero, suc, ◌+◌, ◌^◌, ◌≤◌, ◌<◌, ◌≡◌, arith, refl, ap, sym, subst}
use flint_rtos.Base.{◌==◌, leb, Bool-cases, inl, inr, List, [], ◌∷◌, ◌++◌, length, update, some}
use mathlib.Core.List.{append-nil}
use flint_rtos.KernelList.{
  Memory, list_end, max_delay, insert_end, insert_after, insert_point, insert, walk,
}
use flint_rtos.KernelList.Seq.{last, first, insert_before, insert_sorted, cut_before}
use flint_rtos.KernelList.Seg.{Seg, Linked, Seg-cut}
use flint_rtos.KernelList.Valid.{IsList, IsFree, end_out}
use flint_rtos.KernelList.Splice.{
  Joined, insert_end-Linked, insert_end-Joined, insert_after-Linked, insert_after-Joined,
}
use flint_rtos.KernelList.Splice.{before_in, after_in, new_ne, link-IsList, link-frame}

-- The lists at the addresses from 1 to `bound - 1` hold what `held` says.
abbrev pub Holds : Memory → ℕ → (ℕ → List ℕ) → Type 0
Holds m bound held = (l : ℕ) → 0 < l → l < bound → IsList m l (held l)

module _ {m m' : Memory} {bound : ℕ} {held : ℕ → List ℕ} (h : Holds m bound held) (l n : ℕ)
    (pos : 0 < l) (lt : l < bound) (free : IsFree m n) (room : length (held l) + 1 < 2 ^ 64)
    (us vs xs : List ℕ) (whole : held l ≡ us ++ vs) (made : xs ≡ us ++ (n ∷ vs))
    (k : Linked m m' (last (list_end l) us) n (first (list_end l) vs)) (j : Joined m m' l n) where
  is : IsList m l (us ++ vs)
  is = subst (IsList m l) whole (h l pos lt)

  link-Holds : Holds m' bound (update held l xs)
  link-Holds o po lo = elim (Bool-cases (o == l)) [
    | inl e ↦
        let same : o ≡ l = ground arith in
        rw e (
          subst (λ a. IsList m' a xs) (sym same)
            (rw made (link-IsList l n us vs pos free is (rw whole at room) k j)))
    | inr e ↦ rw e (link-frame l n us vs pos free is o (held o) (ground arith) po (h o po lo) k j)
  ]

-- The walk of `vListInsert` ends, within one round more than there are items, where
-- `insert_sorted` puts the item.
walk_ends :
    (m : Memory) (v n e b : ℕ) (fuel : ℕ) (xs : List ℕ)
    → Seg m b xs e
    → v < m.value e
    → length xs < fuel
    → (us : List ℕ) × (vs : List ℕ) × (xs ≡ us ++ vs)
      × (insert_sorted m.value v n xs ≡ us ++ (n ∷ vs))
      × (walk fuel m v b ≡ some (last b us))
unfolding walk insert_sorted
walk_ends m v n e b zero xs s top fuel = absurd (omega arith)
walk_ends m v n e b (suc f) [] s top fuel = ([], [], refl, refl, ground arith)
walk_ends m v n e b (suc f) (x ∷ xs) s top fuel = elim (Bool-cases (leb (m.value x) v)) [
  | inl le ↦
      let (us, vs, whole, made, w) = walk_ends m v n e x f xs s.2 top (omega arith) in
      (x ∷ us, vs, ap (λ l. x ∷ l) whole, rw le (ap (λ l. x ∷ l) made), rw (s.0, le) w)
  | inr gt ↦ ([], x ∷ xs, refl, rw gt, rw (s.0, gt))
]

insert_sorted_last :
    (value : ℕ → ℕ) (v n : ℕ) (xs : List ℕ)
    → ((a : ℕ) → value a ≤ v)
    → insert_sorted value v n xs ≡ xs ++ (n ∷ [])
unfolding insert_sorted
insert_sorted_last value v n [] h = refl
insert_sorted_last value v n (x ∷ xs) h = ground (arith, h x, insert_sorted_last value v n xs h)

module _ {m : Memory} {l : ℕ} {xs : List ℕ} (is : IsList m l xs)
    (word : (a : ℕ) → m.value a ≤ max_delay) where
  -- Where `vListInsert` puts an item: found whatever the list, and with no NULL on the way.
  insert_point_found :
      (v n : ℕ)
      → v ≤ max_delay
      → (us : List ℕ) × (vs : List ℕ) × (xs ≡ us ++ vs)
        × (insert_sorted m.value v n xs ≡ us ++ (n ∷ vs))
        × (insert_point l v m ≡ some (last (list_end l) us))
  unfolding insert_point
  insert_point_found v n hv = elim (Bool-cases (v == max_delay)) [
    | inl top ↦ (
      xs,
      [],
      sym (append-nil xs),
      insert_sorted_last m.value v n xs (λ a. ground (arith, word a)),
      rw top (
          ap some (
            (Seg-cut m (list_end l) xs [] (list_end l)
              (subst (λ k. Seg m (list_end l) k (list_end l)) (sym (append-nil xs)) is.ring)).1)),
    )
    | inr low ↦
        let (us, vs, whole, made, w) =
          walk_ends m v n (list_end l) (list_end l) (m.count l + 1) xs is.ring
            (ground (arith, is.sentinel)) (omega (arith, is.count)) in
        (us, vs, whole, made, rw low w)
  ]

module _ {m : Memory} {bound : ℕ} {held : ℕ → List ℕ} (h : Holds m bound held) (l n : ℕ)
    (pos : 0 < l) (lt : l < bound) (free : IsFree m n) (room : length (held l) + 1 < 2 ^ 64) where
  -- `vListInsertEnd` of an item that is in no list puts it just before the cursor of the list, and
  -- leaves every other list as it was.
  pub insert_end-Holds :
      Holds (insert_end l n m) bound (update held l (insert_before (m.index l) n (held l)))
  insert_end-Holds =
      let own = h l pos lt in
      let (us, vs, whole, at, made) =
        cut_before (list_end l) (m.index l) n (held l) own.cursor (end_out own l) in
      let is : IsList m l (us ++ vs) = subst (IsList m l) whole own in
      let (nx, pv) = Seg-cut m (list_end l) us vs (list_end l) is.ring in
      link-Holds h l n pos lt free room us vs _ whole made
        (insert_end-Linked l n _ _ m (sym at) pv
          (new_ne l n us vs pos free is _ (before_in l n us vs pos free is))
          (new_ne l n us vs pos free is _ (after_in l n us vs pos free is)))
        (insert_end-Joined l n m)

  -- `vListInsert` of an item that is in no list ends, puts the item before the first one with a
  -- greater value, and leaves every other list as it was, where all values fit TickType_t.
  pub insert-Holds :
      ((a : ℕ) → m.value a ≤ max_delay)
      → (m' : Memory) × (insert l n m ≡ some m')
        × Joined m m' l n
        × Holds m' bound (update held l (insert_sorted m.value (m.value n) n (held l)))
  unfolding insert
  insert-Holds word =
      let own = h l pos lt in
      let (us, vs, whole, made, point) = insert_point_found own word (m.value n) n (word n) in
      let is : IsList m l (us ++ vs) = subst (IsList m l) whole own in
      let (nx, pv) = Seg-cut m (list_end l) us vs (list_end l) is.ring in
      (
        insert_after l n (last (list_end l) us) m,
        rw point refl,
        insert_after-Joined l n _ m,
        link-Holds h l n pos lt free room us vs _ whole made
            (insert_after-Linked l n _ _ m nx
              (new_ne l n us vs pos free is _ (before_in l n us vs pos free is))
              (new_ne l n us vs pos free is _ (after_in l n us vs pos free is)))
            (insert_after-Joined l n _ m),
      )
