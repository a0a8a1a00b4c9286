-- ===== src/Tests.antt =====
-- Runs of the model on small inputs, and the theorems at such inputs.
mod Arrays
mod Joins
mod Loops
mod Matches
mod Optionals
mod Negatives
mod Trees
mod Fillers
mod Shards
mod Queries
mod Caches
mod Constraints
mod Tasks
mod Orders
mod Globals
mod Devices
mod Tables
mod Texts
