-- ===== src/Sync/Count.antt =====
-- How many holders a semaphore lets in.
