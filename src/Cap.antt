-- ===== src/Cap.antt =====
-- kernel/cap.c and include/flint/cap.h: capabilities and the flat CNode.
pub mod Slots
pub mod Effects
pub mod Authority
use flint_rtos.Base.{
  ℕ, zero, suc, ◌%◌, ◌^◌, Bool, true, false, not, ◌==◌, leb, if◌then◌else◌, ◌&&◌, ◌||◌,
}
use flint_rtos.Base.{bit_and}
use flint_rtos.Status.{Status}

pub data CapType : Type 0 where
  null untyped domain thread cnode endpoint notification reply schedcontext irqhandler memregion :
      CapType

-- The field `type` is `kind` here.
pub record Cap : Type 0 where
  pub kind : CapType
  pub rights : ℕ
  pub badge : ℕ
  pub object : ℕ
  pub parent : ℕ

abbrev pub no_parent : ℕ
no_parent = 0xffffffff

abbrev pub cnode_slots : ℕ
cnode_slots = 64

abbrev pub right_all : ℕ
right_all = 0xf

-- Every CNode of the system: the capability in slot `i` of the CNode at address `cn`. Two
-- arguments of a call may name one CNode.
abbrev pub Space : Type 0
Space = ℕ → ℕ → Cap

abbrev pub put : Space → ℕ → ℕ → Cap → Space
put s cn slot c n i = if n == cn && i == slot then c else s n i

abbrev pub is_null : CapType → Bool
is_null CapType.null = true
is_null _ = false

-- What `cap_clear` leaves in a slot.
abbrev pub cleared : Cap
cleared = record { kind = CapType.null; rights = 0; badge = 0; object = 0; parent = no_parent }

-- The loop of `flint_cnode_init` after `n` rounds.
unfoldable pub clear_slots : ℕ → Space → ℕ → Space
clear_slots zero s cn = s
clear_slots (suc n) s cn = put (clear_slots n s cn) cn n cleared

unfoldable pub init : Space → ℕ → Space
unfolding clear_slots
init s cn = clear_slots cnode_slots s cn

unfoldable pub type_is_badged : CapType → Bool
type_is_badged CapType.endpoint = true
type_is_badged CapType.notification = true
type_is_badged _ = false

-- The pointer that goes through `out` is the slot itself, so the status is all there is.
unfoldable pub lookup : ℕ → Status
lookup cptr = if leb cnode_slots cptr then Status.cap_invalid else Status.ok

-- `if (st == FLINT_OK) { … }`, with the status that stands before it.
abbrev pub and_then {ℓ} : {A : Type ℓ} → Status → (Status → A) → A → A
and_then Status.ok refused done = done
and_then st refused done = refused st

unfoldable pub install : Space → ℕ → ℕ → Cap → Status × Space
unfolding lookup
install s cn slot c =
    and_then (lookup slot) (λ st. (st, s))
      (if is_null (s cn slot).kind then (Status.ok, put s cn slot c) else (Status.exists, s))

unfoldable pub derive_check : Space → ℕ → ℕ → ℕ → ℕ → Status
unfolding lookup
derive_check s dst_cn dst src_cn src =
    and_then (and_then (lookup src) (λ st. st) (lookup dst)) (λ st. st)
      (if is_null (s src_cn src).kind
        then Status.empty
        else if is_null (s dst_cn dst).kind
        then Status.ok
        else Status.exists)

-- `ps->rights & rights_mask & FLINT_RIGHT_ALL` as a `uint8_t`.
unfoldable pub masked_rights : ℕ → ℕ → ℕ
masked_rights rights mask = bit_and (bit_and rights mask) right_all % 2 ^ 8

unfoldable pub copy : Space → ℕ → ℕ → ℕ → ℕ → ℕ → Status × Space
unfolding derive_check masked_rights
copy s dst_cn dst src_cn src mask =
    and_then (derive_check s dst_cn dst src_cn src) (λ st. (st, s))
      (let ps = s src_cn src in
        (
          Status.ok,
          put s dst_cn dst (record {
            kind = ps.kind;
            object = ps.object;
            badge = ps.badge;
            rights = masked_rights ps.rights mask;
            parent = src;
          }),
        ))

unfoldable pub mint : Space → ℕ → ℕ → ℕ → ℕ → ℕ → ℕ → Status × Space
unfolding derive_check masked_rights type_is_badged
mint s dst_cn dst src_cn src mask badge =
    and_then (derive_check s dst_cn dst src_cn src) (λ st. (st, s))
      (let ps = s src_cn src in
        if not (type_is_badged ps.kind)
        then (Status.cap_type, s)
        else if not (ps.badge == 0)
        then (Status.state, s)
        else (
          Status.ok,
          put s dst_cn dst (record {
            kind = ps.kind;
            object = ps.object;
            badge = badge;
            rights = masked_rights ps.rights mask;
            parent = src;
          }),
        ))

unfoldable pub move : Space → ℕ → ℕ → ℕ → ℕ → Status × Space
unfolding derive_check
move s dst_cn dst src_cn src =
    and_then (derive_check s dst_cn dst src_cn src) (λ st. (st, s))
      (Status.ok, put (put s dst_cn dst (s src_cn src)) src_cn src cleared)

unfoldable pub delete : Space → ℕ → ℕ → Status × Space
unfolding lookup
delete s cn slot =
    and_then (lookup slot) (λ st. (st, s))
      (if is_null (s cn slot).kind then (Status.empty, s) else (Status.ok, put s cn slot cleared))
