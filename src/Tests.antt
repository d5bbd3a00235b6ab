-- ===== src/Tests.antt =====
-- Runs of the modelled code and of its theorems on concrete data, by part of the program.
mod Data
mod Documents
mod Lifecycle
mod Context
mod Ingestion
mod Conversations
mod Resilience
mod Agent
mod Retrieval
mod Evidence
mod Formats
