-- ===== src/Tests.antt =====
-- Runs of the definitions at concrete inputs, and each theorem at one.
mod FilePath
mod Text
mod Keys
mod Store
mod Manifest
mod Cc
mod Cached
mod GoCache
mod Image
mod Broker
mod Driver
mod Served
mod DirMode
mod Mode
mod Rustc
mod CacheClient
mod Launch
mod NixStore
mod NixPaths
