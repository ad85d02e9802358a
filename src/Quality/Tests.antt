-- ===== src/Quality/Tests.antt =====
-- Settlements and classes of quality at concrete times.
