-- ===== src/Tests.antt =====
-- Concrete inputs, runs of the model on them, and the theorems at them.
mod Data
mod Frames
mod Caches
mod Sessions
mod Loops
mod Arguments
mod RcFiles
mod Paths
mod Codec
mod Vaults
mod Stored
mod Remote
mod Walks
mod Setup
mod Drive
