-- ===== src/Proc/Tests.antt =====
-- A wakeup on the sample table.
