-- ===== src/Tests.antt =====
-- Runs of the model on concrete inputs, and each theorem applied to one.
mod Runs
mod Streams
mod Transport
mod Paths
mod Schemas
mod Verbs
mod Handles
mod Scaffolds
