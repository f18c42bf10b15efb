-- ===== src/Cap/Authority.antt =====
-- No sequence of calls makes authority: what a slot holds stems from a capability that was there.
use native.Mathlib.Nat.{mod-eq_of_lt}
use flint_rtos.Base.{
  ℕ, ◌^◌, ◌<◌, ◌≤◌, ◌≡◌, ◌⊎◌, inl, inr, true, false, arith, refl, ◌∙◌, min, bit_and,
}
use flint_rtos.Bits.{digit, digit-bit_and, bit_and-mask}
use flint_rtos.Cap.{
  Space, Cap, is_null, cleared, copy, mint, move, delete, masked_rights, type_is_badged,
}
use flint_rtos.Cap.Slots.{Op, copying, minting, moving, deleting, run}

-- `d` names the object of `c` with no right that `c` lacks. Its badge is that of `c`, unless `c` is
-- an endpoint or notification with no badge.
pub record Derives (c d : Cap) : Type 0 where
  pub same_kind : d.kind ≡ c.kind
  pub same_object : d.object ≡ c.object
  pub no_new_right : (i : ℕ) → digit d.rights i ≤ digit c.rights i
  pub badge_kept : (d.badge ≡ c.badge) ⊎ ((c.badge ≡ 0) × (type_is_badged c.kind ≡ true))

Derives-refl : (c : Cap) → Derives c c
Derives-refl c = record {
  same_kind = refl;
  same_object = refl;
  no_new_right = λ i. omega arith;
  badge_kept = inl refl;
}

Derives-trans : {a b c : Cap} → Derives a b → Derives b c → Derives a c
Derives-trans p q = record {
  same_kind = q.same_kind ∙ p.same_kind;
  same_object = q.same_object ∙ p.same_object;
  no_new_right = λ i. omega (arith, p.no_new_right i, q.no_new_right i);
  badge_kept = ground arith;
}

digit-masked_rights : (r m i : ℕ) → digit (masked_rights r m) i ≤ min (digit r i) (digit m i)
unfolding masked_rights
digit-masked_rights r m i =
    rw (mod-eq_of_lt small) (omega (arith, digit-bit_and (bit_and r m) 0xf i, digit-bit_and r m i))
  where
    small : bit_and (bit_and r m) 0xf < 2 ^ 8
    small = omega (arith, bit_and-mask 4 (bit_and r m))

pub record Stems (s : Space) (d : Cap) : Type 0 where
  pub from_cn : ℕ
  pub from_slot : ℕ
  pub held : is_null (s from_cn from_slot).kind ≡ false
  pub derives : Derives (s from_cn from_slot) d

-- What a copy or a mint writes.
abbrev derived : Cap → ℕ → ℕ → ℕ → Cap
derived ps mask badge src = record {
  kind = ps.kind;
  object = ps.object;
  badge = badge;
  rights = masked_rights ps.rights mask;
  parent = src;
}

stays : (s : Space) (cn i : ℕ) (d : Cap) → d ≡ s cn i → is_null d.kind ≡ false → Stems s d
stays s cn i d e h = record {
  from_cn = cn;
  from_slot = i;
  held = rw (← e) h;
  derives = rw e (Derives-refl (s cn i));
}

module _ (s : Space) (dst_cn dst src_cn src : ℕ) where
  abbrev ps : Cap
  ps = s src_cn src

  Stems-derived :
      (mask badge : ℕ) (d : Cap)
      → is_null ps.kind ≡ false
      → (badge ≡ ps.badge) ⊎ ((ps.badge ≡ 0) × (type_is_badged ps.kind ≡ true))
      → d ≡ derived ps mask badge src
      → Stems s d
  Stems-derived mask badge d held kept e = rw e (record {
    from_cn = src_cn;
    from_slot = src;
    held = held;
    derives = record {
      same_kind = refl;
      same_object = refl;
      no_new_right = λ i. omega (arith, digit-masked_rights ps.rights mask i);
      badge_kept = kept;
    };
  })

  copy_slot :
      (mask cn i : ℕ)
      → let d = (copy s dst_cn dst src_cn src mask).1 cn i in
        (d ≡ s cn i) ⊎ ((is_null ps.kind ≡ false) × (d ≡ derived ps mask ps.badge src))
  unfolding copy
  copy_slot mask cn i = ground arith

  mint_slot :
      (mask badge cn i : ℕ)
      → let d = (mint s dst_cn dst src_cn src mask badge).1 cn i in
        (d ≡ s cn i)
        ⊎ ((is_null ps.kind ≡ false)
            × (ps.badge ≡ 0)
            × (type_is_badged ps.kind ≡ true)
            × (d ≡ derived ps mask badge src))
  unfolding mint
  mint_slot mask badge cn i = ground arith

  move_slot :
      (cn i : ℕ)
      → let d = (move s dst_cn dst src_cn src).1 cn i in (d ≡ s cn i) ⊎ ((d ≡ ps) ⊎ (d ≡ cleared))
  unfolding move
  move_slot cn i = ground arith

delete_slot :
    (s : Space) (cn' slot cn i : ℕ)
    → let d = (delete s cn' slot).1 cn i in (d ≡ s cn i) ⊎ (d ≡ cleared)
unfolding delete
delete_slot s cn' slot cn i = ground arith

-- One call: what a slot holds afterwards stems from a capability that was held before.
run-Stems :
    (op : Op) (s : Space) (cn i : ℕ)
    → is_null ((run op s).1 cn i).kind ≡ false
    → Stems s ((run op s).1 cn i)
unfolding run
run-Stems (copying dst_cn dst src_cn src mask) s cn i h =
    elim (copy_slot s dst_cn dst src_cn src mask cn i) [
      | inl e ↦ stays s cn i _ e h
      | inr (held, e) ↦ Stems-derived s dst_cn dst src_cn src mask _ _ held (inl refl) e
    ]
run-Stems (minting dst_cn dst src_cn src mask badge) s cn i h =
    elim (mint_slot s dst_cn dst src_cn src mask badge cn i) [
      | inl e ↦ stays s cn i _ e h
      | inr (held, zero_badge, badged, e) ↦
          Stems-derived s dst_cn dst src_cn src mask badge _ held (inr (zero_badge, badged)) e
    ]
run-Stems (moving dst_cn dst src_cn src) s cn i h = elim (move_slot s dst_cn dst src_cn src cn i) [
  | inl e ↦ stays s cn i _ e h
  | inr (inl e) ↦ stays s src_cn src _ e h
  | inr (inr e) ↦ ground arith
]
run-Stems (deleting cn' slot) s cn i h = elim (delete_slot s cn' slot cn i) [
  | inl e ↦ stays s cn i _ e h
  | inr e ↦ ground arith
]

-- The spaces that sequences of calls lead to.
pub data Reach (s : Space) : Space → Type 0 where
  here : Reach s s
  step : {t : Space} (op : Op) → Reach s t → Reach s (run op t).1

Stems-trans :
    {s t : Space} {d : Cap}
    → ((cn i : ℕ) → is_null (t cn i).kind ≡ false → Stems s (t cn i))
    → Stems t d
    → Stems s d
Stems-trans before st =
    let b = before st.from_cn st.from_slot st.held in
    record {
      from_cn = b.from_cn;
      from_slot = b.from_slot;
      held = b.held;
      derives = Derives-trans b.derives st.derives;
    }

-- After any sequence of copies, mints, moves and deletions, every capability that a slot holds has
-- the kind and the object of one that was held at the start, no right that one lacks, and its badge
-- unless that was an endpoint or notification with badge 0.
pub Reach-Stems :
    {s t : Space} → Reach s t → (cn i : ℕ) → is_null (t cn i).kind ≡ false → Stems s (t cn i)
Reach-Stems {s} here cn i h = stays s cn i (s cn i) refl h
Reach-Stems (step {t} op r) cn i h = Stems-trans (Reach-Stems r) (run-Stems op t cn i h)
