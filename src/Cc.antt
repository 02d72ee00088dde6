-- ===== src/Cc.antt =====
-- pkgs/ji/jig/src/cc_mode.cc: the C and C++ compiler driver behind the cache.
pub mod Options
pub mod Invocation
pub mod Omits
pub mod Takes
pub mod Rounds
pub mod Keyed
pub mod Classes
pub mod Result
pub mod Stored
pub mod Replayed
pub mod Observe
pub mod Replay
pub mod Served
pub mod Mode
