-- ===== src/HeapFour/Walk.antt =====
-- The two walks along the free list.
use flint_rtos.Base.{
  ℕ, suc, ◌+◌, ◌-◌, ◌≤◌, ◌<◌, ◌≡◌, ◌⊎◌, arith, refl, ◌∙◌, ap, sym, subst, inl, inr, true, false,
  ◌&&◌, ◌==◌, ltb, leb, if◌then◌else◌, Bool-cases, List, [], ◌∷◌, some,
}
use flint_rtos.HeapFour.{Heap, start, find_place, find_fit}
use flint_rtos.HeapFour.Tiles.{
  Tile, Left, Right, Left-le, Right-le, Left-next, Left-cons, onto, first_free, last_free,
}

-- The number of free blocks.
abbrev frees : List Tile → ℕ
frees [] = 0
frees (t ∷ ls) = (if t.is_free then 1 else 0) + frees ls

frees-le : (h : Heap) (first b q : ℕ) (ls : List Tile) → Left h first b q ls → frees ls + first ≤ b
frees-le h first b q [] l = omega (arith, l.0)
frees-le h first b q (t ∷ ls) l =
    ground (arith, l.0, l.1.some_bytes, frees-le h first t.address _ ls l.2)

find_place-step :
    (h : Heap) (b it n fuel : ℕ)
    → h.next it ≡ n
    → n < b
    → find_place (suc fuel) h b it ≡ find_place fuel h b n
unfolding find_place
find_place-step h b it n fuel e lt = let less : ltb n b ≡ true = ground arith in rw (e, less) refl

find_place-walk :
    (h : Heap) (first c q b fuel : ℕ) (ls : List Tile)
    → Left h first c q ls
    → c ≤ b
    → find_place (frees ls + fuel) h b start ≡ find_place fuel h b (last_free ls)
find_place-walk h first c q b fuel [] l le = let e : 0 + fuel ≡ fuel = omega arith in rw e refl
find_place-walk h first c q b fuel (t ∷ ls) l le = elim (Bool-cases t.is_free) [
  | inl e ↦
      let more : 1 + frees ls + fuel ≡ frees ls + suc fuel = omega arith in
      rw (e, more)
        (find_place-walk h first t.address _ b (suc fuel) ls l.2 (omega (arith, l.0))
          ∙ find_place-step h b (last_free ls) t.address fuel
              (rw e at (Left-next h first t.address _ ls l.2)) (omega (arith, l.0, l.1.some_bytes)))
  | inr e ↦
      let same : 0 + frees ls + fuel ≡ frees ls + fuel = omega arith in
      rw (e, same) (find_place-walk h first t.address _ b fuel ls l.2 (omega (arith, l.0)))
]

-- The loop of `prvInsertBlockIntoFreeList` ends at the nearest free block before `b`.
pub find_place_lem :
    (h : Heap) (first b q : ℕ) (ls : List Tile)
    → Left h first b q ls
    → start < first
    → b ≤ q
    → b ≤ h.end
    → find_place h.end h b start ≡ some (last_free ls)
unfolding find_place
find_place_lem h first b q ls l pos ahead inside =
    let few = frees-le h first b q ls l in
    let fuel : h.end ≡ frees ls + suc (h.end - frees ls - 1) = omega arith in
    let stop : ltb q b ≡ false = ground arith in
    ap (λ f. find_place f h b start) fuel
    ∙ (find_place-walk h first b q b (suc (h.end - frees ls - 1)) ls l (omega arith)
        ∙ rw (Left-next h first b q ls l, stop) refl)

find_fit-step :
    (h : Heap) (w prev b n fuel : ℕ)
    → h.next b ≡ n
    → h.size b < w
    → 0 < n
    → find_fit (suc fuel) h w prev b ≡ find_fit fuel h w b n
unfolding find_fit
find_fit-step h w prev b n fuel e small pos =
    let less : ltb (h.size b) w ≡ true = ground arith in
    let some_next : (n == 0) ≡ false = ground arith in rw (less, e, some_next) refl

-- Every free block is smaller than `w`.
abbrev pub Smaller : ℕ → List Tile → Type 0
Smaller w [] = Unit {0}
Smaller w (t ∷ ts) = (t.is_free ≡ true → t.bytes < w) × Smaller w ts

find_fit-walk :
    (h : Heap) (first c q w fuel : ℕ) (ls : List Tile)
    → Left h first c q ls
    → Smaller w ls
    → 0 < first
    → 0 < q
    → find_fit (frees ls + fuel) h w start (h.next start) ≡ find_fit fuel h w (last_free ls) q
find_fit-walk h first c q w fuel [] l small pos some_q =
    let e : 0 + fuel ≡ fuel = omega arith in rw (e, l.1) refl
find_fit-walk h first c q w fuel (t ∷ ls) l small pos some_q = elim (Bool-cases t.is_free) [
  | inl e ↦
      let more : 1 + frees ls + fuel ≡ frees ls + suc fuel = omega arith in
      rw (e, more)
        (find_fit-walk h first t.address t.address w (suc fuel) ls (rw e at l.2) small.1 pos
            (omega (arith, pos, Left-le h first t.address _ ls l.2))
          ∙ find_fit-step h w (last_free ls) t.address q fuel (rw e at l.1.linked)
              (ground (arith, l.1.sized, small.0 e)) some_q)
  | inr e ↦
      let same : 0 + frees ls + fuel ≡ frees ls + fuel = omega arith in
      rw (e, same) (find_fit-walk h first t.address q w fuel ls (rw e at l.2) small.1 pos some_q)
]

-- The first free block that is large enough, with the blocks around it.
pub record Fit (h : Heap) (first w : ℕ) (ts : List Tile) : Type 0 where
  pub before : List Tile
  pub tile : Tile
  pub after : List Tile
  pub row : onto before (tile ∷ after) ≡ ts
  pub is_free : tile.is_free ≡ true
  pub large : w ≤ tile.bytes
  pub earlier : Smaller w before
  pub left : Left h first tile.address tile.address before
  pub right : Right h tile.address (tile ∷ after)
  pub found : find_fit h.end h w start (h.next start) ≡ some (last_free before, tile.address)

-- With no large enough block the loop ends at `pxEnd`.
pub record NoFit (h : Heap) (w : ℕ) (ts : List Tile) : Type 0 where
  pub small : Smaller w ts
  pub last : ℕ
  pub found : find_fit h.end h w start (h.next start) ≡ some (last, h.end)

Smaller-onto : (w : ℕ) (ls ts : List Tile) → Smaller w ls → Smaller w ts → Smaller w (onto ls ts)
Smaller-onto w [] ts a b = b
Smaller-onto w (t ∷ ls) ts a b = Smaller-onto w ls (t ∷ ts) a.1 (a.0, b)

find_fit-stop :
    (h : Heap) (w prev b fuel : ℕ)
    → (w ≤ h.size b) ⊎ (h.next b ≡ 0)
    → find_fit (suc fuel) h w prev b ≡ some (prev, b)
unfolding find_fit
find_fit-stop h w prev b fuel (inl large) = ground arith
find_fit-stop h w prev b fuel (inr last) = ground arith

find_fit-here :
    (h : Heap) (first b w : ℕ) (ls : List Tile) (q : ℕ)
    → Left h first b q ls
    → Smaller w ls
    → 0 < first
    → 0 < q
    → b ≤ h.end
    → (w ≤ h.size q) ⊎ (h.next q ≡ 0)
    → find_fit h.end h w start (h.next start) ≡ some (last_free ls, q)
find_fit-here h first b w ls q l small pos some_q inside stop =
    let few = frees-le h first b q ls l in
    let fuel : h.end ≡ frees ls + suc (h.end - frees ls - 1) = omega arith in
    ap (λ f. find_fit f h w start (h.next start)) fuel
    ∙ (find_fit-walk h first b q w (suc (h.end - frees ls - 1)) ls l small pos some_q
        ∙ find_fit-stop h w (last_free ls) q (h.end - frees ls - 1) stop)

pub find_fit_lem :
    (h : Heap) (first b w : ℕ) (ls ts : List Tile)
    → Left h first b (first_free h.end ts) ls
    → Right h b ts
    → Smaller w ls
    → 0 < first
    → h.next h.end ≡ 0
    → Fit h first w (onto ls ts) ⊎ NoFit h w (onto ls ts)
find_fit_lem h first b w ls [] l r small pos last =
    let le = Left-le h first b _ ls l in
    inr (record {
      small = Smaller-onto w ls [] small tt;
      last = last_free ls;
      found =
          find_fit-here h first b w ls h.end l small pos (omega (arith, le, r)) (omega (arith, r))
            (inr last);
    })
find_fit_lem h first b w ls (t ∷ ts) l r small pos last =
    elim (Bool-cases (t.is_free && leb w t.bytes)) [
      | inl fits ↦
          let free : t.is_free ≡ true = ground (arith, fits) in
          let large : w ≤ t.bytes = ground (arith, fits) in
          let left : Left h first t.address t.address ls =
            rw free at (subst (λ x. Left h first x (first_free h.end (t ∷ ts)) ls) (sym r.0) l) in
          let right = subst (λ x. Right h x (t ∷ ts)) (sym r.0) r in
          let le = Left-le h first t.address _ ls left in
          inl (record {
            before = ls;
            tile = t;
            after = ts;
            row = refl;
            is_free = free;
            large = large;
            earlier = small;
            left = left;
            right = right;
            found =
                find_fit-here h first t.address w ls t.address left small pos
                  (omega (arith, le, pos)) (Right-le h t.address (t ∷ ts) right)
                  (inl (ground (arith, r.1.sized, free, large)));
          })
      | inr no_fit ↦
          find_fit_lem h first (b + t.bytes) w (t ∷ ls) ts (Left-cons h first b ls t ts l r) r.2
            (λ e. ground (arith, no_fit, e), small) pos last
    ]
