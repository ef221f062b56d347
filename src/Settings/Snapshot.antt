-- ===== src/Settings/Snapshot.antt =====
-- What a run freezes of the configuration.
