-- ===== src/Wal.antt =====
-- api/wal.py: the append-only write-ahead log of hard-delete transactions. `Codec` has the record
-- layout, `Scan` the reader, `Log` the appending methods and `Pending` the crash-recovery query.
pub mod Codec
pub mod Scan
pub mod Log
pub mod Pending
pub mod Roundtrip
pub mod Torn
pub mod Fresh
pub mod Lifecycle
pub mod Tests
