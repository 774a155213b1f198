-- ===== src/Tests.antt =====
-- The theorems at concrete inputs: memories with an empty directory, requests, a compressor that
-- copies, and a machine.
mod Tables
mod Pages
mod Programs
mod Machines
mod Elements
mod Runs
mod Full
mod Streams
mod Swaps
