-- ===== src/PtpCore/Port/Master.antt =====
-- The master that an Announce message leaves.
use flint_rtos.Base.{
  true-false, and-left, and-right, either, ℕ, ◌≡◌, ◌≤◌, ◌⊎◌, inl, inr, Bool-cases, refl, subst,
  Bool, arith, true, false, not, ◌&&◌, ◌||◌, ltb,
}
use flint_rtos.Int.{is_neg, negate}
use flint_rtos.PtpDataset.{Dataset, dataset_cmp}
use flint_rtos.PtpDataset.Order.{dataset_cmp_order}
use flint_rtos.PtpCore.{
  Core, same_bytes, announced, note_announce, reset_measurements, handle_announce, announce_len_min,
}

self_cmp : (a : Dataset) → is_neg (dataset_cmp a a) ≡ false
self_cmp a = rw ((dataset_cmp_order a a a).1.1 refl) refl

better_cmp : (a b : Dataset) → is_neg (dataset_cmp a b) ≡ true → is_neg (dataset_cmp b a) ≡ false
unfolding negate
better_cmp a b e = rw ((dataset_cmp_order a b a).0) (ground (arith, e))

master_kept : (a b : Bool) → (not a || b) ≡ false → a ≡ true
master_kept true b e = refl
master_kept false b e = absurd (true-false e)

or-right : (a b : Bool) → (a || b) ≡ false → b ≡ false
or-right true b e = absurd (true-false e)
or-right false b e = e

-- There is a master, the announced one is not better than it, and neither is the former one, unless the
-- announced one is the former one.
pub record BestOf (ds : Dataset) (g g' : Core) : Type 0 where
  pub some_master : g'.have_master ≡ true
  pub over_announced : is_neg (dataset_cmp ds g'.master) ≡ false
  pub over_former :
      (g.have_master ≡ false)
      ⊎ ((same_bytes ds.port_id g.master.port_id 10 ≡ true)
          ⊎ (is_neg (dataset_cmp g.master g'.master) ≡ false))

-- After an Announce message of at least 64 bytes there is a master. The dataset that was announced is not
-- better than the master's, and if the message came from another port than the former master's, the
-- former master's is not better either.
pub handle_announce-BestOf :
    (b : ℕ → ℕ) (len : ℕ) (g : Core) → 64 ≤ len → BestOf (announced b) g (handle_announce b len g)
unfolding handle_announce note_announce reset_measurements
handle_announce-BestOf b len g long =
    let ds = announced b in
    let long_enough : ltb len announce_len_min ≡ false = ground arith in
    rw long_enough (
      either (BestOf ds g) (g.have_master && same_bytes ds.port_id g.master.port_id 10)
        (λ e. record {
          some_master = and-left g.have_master _ e;
          over_announced = self_cmp ds;
          over_former = inr (inl (and-right g.have_master _ e));
        })
        (λ e.
          either (BestOf ds g) (not g.have_master || is_neg (dataset_cmp ds g.master))
            (λ better. record {
              some_master = refl;
              over_announced = self_cmp ds;
              over_former = elim (Bool-cases g.have_master) [
                | inl master ↦ inr (
                    inr (
                      better_cmp ds g.master (
                        subst (λ h. (not h || is_neg (dataset_cmp ds g.master)) ≡ true) master
                          better)))
                | inr none_yet ↦ inl none_yet
              ];
            })
            (λ worse. record {
              some_master = master_kept g.have_master _ worse;
              over_announced = or-right _ _ worse;
              over_former = inr (inr (self_cmp g.master));
            })))
