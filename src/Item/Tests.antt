-- ===== src/Item/Tests.antt =====
-- Tests of the item classes.
