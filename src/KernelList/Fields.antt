-- ===== src/KernelList/Fields.antt =====
-- Writing the value or the owner of an item leaves every list what it holds.
use flint_rtos.Base.{ℕ, ◌%◌, ◌≡◌, arith, refl, List}
use flint_rtos.KernelList.{Memory, set_value, set_owner}
use flint_rtos.KernelList.Valid.{Undisturbed-IsList}
use flint_rtos.KernelList.Insert.{Holds}

module _ {m : Memory} {bound : ℕ} {held : ℕ → List ℕ} (h : Holds m bound held) (n v : ℕ) where
  pub set_value-Holds : n % 2 ≡ 0 → Holds (set_value n v m) bound held
  set_value-Holds even o po lo =
      Undisturbed-IsList
        (record {
          next_kept = λ a _. refl;
          prev_kept = λ a _. refl;
          container_kept = λ a _. refl;
          value_kept = ground arith;
          count_kept = refl;
          index_kept = refl;
        })
        (h o po lo)

  pub set_owner-Holds : Holds (set_owner n v m) bound held
  set_owner-Holds o po lo =
      Undisturbed-IsList
        (record {
          next_kept = λ a _. refl;
          prev_kept = λ a _. refl;
          container_kept = λ a _. refl;
          value_kept = refl;
          count_kept = refl;
          index_kept = refl;
        })
        (h o po lo)
