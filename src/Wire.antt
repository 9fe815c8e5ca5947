-- ===== src/Wire.antt =====
-- What the reader makes of the writer's frames.
pub mod Bin
pub mod Hex
pub mod Uue
pub mod Asc
pub mod Cancel
pub mod Corrupt
pub mod Frame
pub mod RoundTrip
mod Runs
