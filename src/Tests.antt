-- ===== src/Tests.antt =====
-- The theorems at concrete inputs.
mod Masks
mod Nodes
mod Threads
mod Append
mod Barrier
mod Trim
mod RoundTrip
mod Runs
mod Sets
mod Balance
mod Transfer
mod Level
mod Rounds
mod Log
