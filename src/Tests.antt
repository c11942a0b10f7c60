-- ===== src/Tests.antt =====
-- Runs of the model at concrete inputs, and each theorem that has hypotheses at such an input.
mod Samples
mod Models
mod Wire
mod Codecs
mod Sends
mod Nodes
mod Networks
mod Meshes
mod Windows
mod Acks
mod Locking
mod Rounds
mod Programs
