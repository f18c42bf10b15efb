-- ===== src/Examples/HeapOne.antt =====
-- A heap of one MiB, of which 32 bytes are handed out.
