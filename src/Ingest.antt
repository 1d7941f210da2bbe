-- ===== src/Ingest.antt =====
-- src/openwright/ingest: the evidence pipeline (pipeline.py) and its durable parts (durable.py).
pub mod Spill
pub mod Fifo
pub mod DrainLoop
pub mod SpillQueue
pub mod Pipeline
pub mod Worker
pub mod Drops
pub mod Journal
pub mod Tally
pub mod Conserved
pub mod Crash
mod Tests
