-- ===== src/Tests.antt =====
-- Runs of the modelled functions at concrete inputs, and the theorems applied there.
mod Allocators
mod Heaps
mod Schedulers
mod Rings
mod Brackets
mod Vectors
mod Searches
mod Arrays
mod Hashes
mod Sorts
mod Slabs
mod Lists
mod Maps
mod Singly
mod Stacks
mod Threads
mod Pools
