-- ===== src/Tests.antt =====
-- Runs of the library's theorems at concrete inputs, one file for each part of the engine.
mod Specs
mod Operations
mod Configs
mod Handles
mod Values
mod Lines
mod Runs
mod Listings
mod Sessions
mod Copies
mod Hosts
