-- ===== src/Status.antt =====
-- include/flint/status.h: the codes that every operation of the security layer returns.
pub data Status : Type 0 where
  ok cap_invalid cap_type cap_rights msg_too_long would_block no_memory range state exists empty :
      Status
