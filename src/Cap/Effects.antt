-- ===== src/Cap/Effects.antt =====
-- When copy, mint and move are accepted, and what a move and an initialisation leave behind.
use flint_rtos.Base.{ℕ, ◌<◌, ◌≡◌, ◌⊎◌, ◌↔◌, true, false, arith, ◌&&◌, ◌==◌, if◌then◌else◌}
use flint_rtos.Status.{Status}
use flint_rtos.Cap.{Space, CapType, is_null, cleared, copy, mint, move}

-- The slots of a derivation: both in range, a capability in the source, none in the destination.
abbrev pub Derivable : Space → ℕ → ℕ → ℕ → ℕ → Type 0
Derivable s dst_cn dst src_cn src =
    (src < 64)
    × (dst < 64)
    × (is_null (s src_cn src).kind ≡ false)
    × (is_null (s dst_cn dst).kind ≡ true)

module _ (s : Space) (dst_cn dst src_cn src : ℕ) where
  -- A copy is accepted just if its slots are those of a derivation.
  pub copy-ok_iff :
      (mask : ℕ)
      → ((copy s dst_cn dst src_cn src mask).0 ≡ Status.ok) ↔ Derivable s dst_cn dst src_cn src
  unfolding copy
  copy-ok_iff mask = ground arith

  -- A mint is accepted just if its slots are those of a derivation, and the source is an endpoint
  -- or a notification whose badge is still 0.
  pub mint-ok_iff :
      (mask badge : ℕ)
      → ((mint s dst_cn dst src_cn src mask badge).0 ≡ Status.ok) ↔ (
          Derivable s dst_cn dst src_cn src
          × (((s src_cn src).kind ≡ CapType.endpoint)
              ⊎ ((s src_cn src).kind ≡ CapType.notification))
          × ((s src_cn src).badge ≡ 0))
  unfolding mint
  mint-ok_iff mask badge = ground arith

  -- An accepted move leaves the capability in the destination with every field as it was, the source
  -- empty, and any other slot alone.
  pub move-relocates :
      (move s dst_cn dst src_cn src).0 ≡ Status.ok
      → (cn i : ℕ)
      → (move s dst_cn dst src_cn src).1 cn i ≡ (
          if cn == dst_cn && i == dst
          then s src_cn src
          else if cn == src_cn && i == src
          then cleared
          else s cn i)
  unfolding move
  move-relocates h cn i = ground arith
