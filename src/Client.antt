-- ===== src/Client.antt =====
-- The command line client: package main at the root of the repository.
pub mod Retry
pub mod Args
pub mod Config
pub mod Rpc
pub mod Trees
pub mod Walk
pub mod Flatten
pub mod Paths
pub mod FindPaths
pub mod Dot
pub mod Lists
pub mod Output
pub mod Commands
pub mod Update
pub mod Main
mod Samples
mod RpcSamples
