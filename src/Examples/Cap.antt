-- ===== src/Examples/Cap.antt =====
-- A CNode at address 1 with an endpoint in slot 0, copied, minted and moved.
use flint_rtos.Base.{◌≡◌, ◌↔◌, refl, arith}
use flint_rtos.Status.{Status}
use flint_rtos.Cap.{Space, Cap, CapType, cleared, put, copy}
use flint_rtos.Cap.Slots.{copying, minting, moving, run, run-atomic}
use flint_rtos.Cap.Effects.{Derivable, copy-ok_iff}
use flint_rtos.Cap.Authority.{Stems, here, step, Reach-Stems}

abbrev endpoint : Cap
endpoint = record { kind = CapType.endpoint; rights = 7; badge = 0; object = 42; parent = 0 }

abbrev cspace : Space
cspace = put (λ cn i. cleared) 1 0 endpoint

abbrev minted : Space
minted = (run (minting 1 3 1 0 5 99) cspace).1

abbrev moved : Space
moved = (run (moving 1 4 1 3) minted).1

copy_run : (copy cspace 1 3 1 0 0xfd).1 1 3 ≡ record endpoint { rights = 5 }
unfolding copy
copy_run = refl

run-atomic_example : (run (copying 1 0 1 0 15) cspace).1 ≡ cspace
unfolding run
run-atomic_example = run-atomic (copying 1 0 1 0 15) cspace (λ e. ground arith)

Reach-Stems_example : Stems cspace (moved 1 4)
unfolding run
Reach-Stems_example =
    Reach-Stems (step (moving 1 4 1 3) (step (minting 1 3 1 0 5 99) here)) 1 4 refl

copy-ok_iff_example : ((copy cspace 1 3 1 0 5).0 ≡ Status.ok) ↔ Derivable cspace 1 3 1 0
copy-ok_iff_example = copy-ok_iff cspace 1 3 1 0 5
