-- ===== src/Tests.antt =====
-- Concrete runs of the model, and the theorems at concrete inputs.
mod Data
mod Trees
mod Merges
mod Codecs
mod Buffers
mod Records
mod Stores
mod Stored
mod Routers
mod Registries
