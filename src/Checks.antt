-- ===== src/Checks.antt =====
-- Runs of the model at concrete inputs, at which the theorems are applied.
mod Tools
mod Auth
mod Indexer
mod Http
mod Transport
mod Tables
mod Refresh
mod Worker
mod Listing
