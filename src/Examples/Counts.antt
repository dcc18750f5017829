-- ===== src/Examples/Counts.antt =====
-- The footer of an array of two values.
