-- ===== src/Struct/Queue/Tests.antt =====
-- The queue's theorem at a concrete queue.
