-- ===== src/Driver.antt =====
-- pkgs/ji/jig/src/driver.cc: the command line of the real compiler.
pub mod Runpath
pub mod Args
pub mod Link
pub mod Build
pub mod Passed
pub mod Distinct
pub mod Built
