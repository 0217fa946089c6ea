-- ===== src/Tests.antt =====
-- Runs of the theorems at concrete inputs.
mod Toy
mod Decoding
mod Routes
mod Hybrid
mod Quantised
mod Batches
mod KvStore
mod Compressed
mod Prefilling
mod Prefixes
mod Experts
mod ExpertSlots
mod Schedulers
mod Banks
mod Shards
mod Activations
mod Containers
