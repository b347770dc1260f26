-- ===== src/Update/Tests.antt =====
-- Versions and queries on concrete texts.
