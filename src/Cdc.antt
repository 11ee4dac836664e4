-- ===== src/Cdc.antt =====
-- The live tail of the change stream, `CdcTail` of backend/app/routes/streaming.py.
pub mod Values
pub mod Record
pub mod Tail
pub mod Loop
mod Bounded
mod Decoding
mod Journal
mod Follow
mod Honest
mod Attach
mod Going
mod Tests
mod Shown
