-- ===== src/Tests.antt =====
-- Tests of the definitions, and the theorems at concrete inputs.
mod Samples
mod Interests
mod Pipelines
mod Slots
mod Buffers
mod Controllers
mod Fillings
mod Latencies
mod Announcing
mod Names
mod Packing
mod Playing
mod Fetching
mod Retransmitting
mod Estimating
mod Queueing
mod Reading
