-- ===== src/KernelList/Seg.antt =====
-- Doubly linked segments in memory.
use flint_rtos.Base.{ℕ, ◌≡◌, ◌≢◌, arith, ◌∙◌, sym}
use flint_rtos.Base.{true, false, ◌==◌, ◌||◌, List, [], ◌∷◌, ◌++◌}
use flint_rtos.KernelList.{Memory}
use flint_rtos.KernelList.Seq.{has, Distinct, last, first, has-append, has-last, has-first, has-ne}

-- From `b` the `next` pointers lead through `xs` to `f`, and the `prev` pointers lead back.
abbrev pub Seg : Memory → ℕ → List ℕ → ℕ → Type 0
Seg m b [] f = (m.next b ≡ f) × (m.prev f ≡ b)
Seg m b (x ∷ xs) f = (m.next b ≡ x) × (m.prev x ≡ b) × Seg m x xs f

-- The two pointers at a cut.
pub Seg-cut :
    (m : Memory) (b : ℕ) (us vs : List ℕ) (f : ℕ)
    → Seg m b (us ++ vs) f
    → (m.next (last b us) ≡ first f vs) × (m.prev (first f vs) ≡ last b us)
Seg-cut m b [] [] f s = s
Seg-cut m b [] (v ∷ vs) f s = (s.0, s.1)
Seg-cut m b (u ∷ us) vs f s = Seg-cut m u us vs f s.2

-- A segment survives a change elsewhere.
pub Seg-frame :
    (m m' : Memory) (b : ℕ) (xs : List ℕ) (f : ℕ)
    → ((a : ℕ) → (a == b || has a xs) ≡ true → m'.next a ≡ m.next a)
    → ((a : ℕ) → (a == f || has a xs) ≡ true → m'.prev a ≡ m.prev a)
    → Seg m b xs f
    → Seg m' b xs f
Seg-frame m m' b [] f hn hp s = (hn b (ground arith) ∙ s.0, hp f (ground arith) ∙ s.1)
Seg-frame m m' b (x ∷ xs) f hn hp s = (
  hn b (ground arith) ∙ s.0,
  hp x (ground arith) ∙ s.1,
  Seg-frame m m' x xs f (λ a h. hn a (ground arith)) (λ a h. hp a (ground arith)) s.2,
)

-- `m'` is `m` with `n` linked in between `p` and `q`.
pub record Linked (m m' : Memory) (p n q : ℕ) : Type 0 where
  pub next_p : m'.next p ≡ n
  pub next_n : m'.next n ≡ q
  pub prev_q : m'.prev q ≡ n
  pub prev_n : m'.prev n ≡ p
  pub nexts : (a : ℕ) → a ≢ p → a ≢ n → m'.next a ≡ m.next a
  pub prevs : (a : ℕ) → a ≢ q → a ≢ n → m'.prev a ≡ m.prev a

pub link_Seg :
    (m m' : Memory) (us vs : List ℕ) (b n f : ℕ)
    → Linked m m' (last b us) n (first f vs)
    → Seg m b (us ++ vs) f
    → Distinct (us ++ vs)
    → has b (us ++ vs) ≡ false
    → has f (us ++ vs) ≡ false
    → has n (us ++ vs) ≡ false
    → n ≢ b
    → n ≢ f
    → Seg m' b (us ++ (n ∷ vs)) f
link_Seg m m' [] [] b n f k s d hb hf hn nb nf = (k.next_p, k.prev_n, (k.next_n, k.prev_q))
link_Seg m m' [] (v ∷ vs) b n f k s d hb hf hn nb nf = (
  k.next_p,
  k.prev_n,
  (
    k.next_n,
    k.prev_q,
    Seg-frame m m' v vs f (λ a h. k.nexts a (has-ne a b (v ∷ vs) h hb) (has-ne a n (v ∷ vs) h hn))
        (λ a h. k.prevs a (λ e. ground arith) (λ e. ground arith)) s.2,
  ),
)
link_Seg m m' (u ∷ us) vs b n f k s d hb hf hn nb nf = (
  k.nexts b (λ e. has-ne (last u us) b (u ∷ us) (has-last u us) left (sym e)) (λ e. nb (sym e))
      ∙ s.0,
  k.prevs u (λ e. ground (arith, has-first f vs, has-append u us vs)) (λ e. ground arith) ∙ s.1,
  link_Seg m m' us vs u n f k s.2 d.1 d.0 (ground arith) (ground arith) (λ e. ground arith) nf,
)
  where
    left : has b (u ∷ us) ≡ false
    left = ground (arith, has-append b (u ∷ us) vs)

-- `m'` is `m` with what stood between `p` and `q` taken out.
pub record Unlinked (m m' : Memory) (p q : ℕ) : Type 0 where
  pub next_p : m'.next p ≡ q
  pub prev_q : m'.prev q ≡ p
  pub nexts : (a : ℕ) → a ≢ p → m'.next a ≡ m.next a
  pub prevs : (a : ℕ) → a ≢ q → m'.prev a ≡ m.prev a

pub unlink_Seg :
    (m m' : Memory) (us vs : List ℕ) (b n f : ℕ)
    → Unlinked m m' (last b us) (first f vs)
    → Seg m b (us ++ (n ∷ vs)) f
    → Distinct (us ++ (n ∷ vs))
    → has b (us ++ (n ∷ vs)) ≡ false
    → has f (us ++ (n ∷ vs)) ≡ false
    → Seg m' b (us ++ vs) f
unlink_Seg m m' [] [] b n f k s d hb hf = (k.next_p, k.prev_q)
unlink_Seg m m' [] (v ∷ vs) b n f k s d hb hf = (
  k.next_p,
  k.prev_q,
  Seg-frame m m' v vs f (λ a h. k.nexts a (has-ne a b (n ∷ v ∷ vs) (ground arith) hb))
      (λ a h. k.prevs a (λ e. ground arith)) s.2.2,
)
unlink_Seg m m' (u ∷ us) vs b n f k s d hb hf = (
  k.nexts b (λ e. has-ne (last u us) b (u ∷ us) (has-last u us) left (sym e)) ∙ s.0,
  k.prevs u (λ e. ground (arith, has-first f vs, has-append u us (n ∷ vs))) ∙ s.1,
  unlink_Seg m m' us vs u n f k s.2 d.1 d.0 (ground arith),
)
  where
    left : has b (u ∷ us) ≡ false
    left = ground (arith, has-append b (u ∷ us) (n ∷ vs))
