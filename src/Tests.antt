-- ===== src/Tests.antt =====
-- Runs of the models on small inputs, and the theorems at one of them.
mod Contracts
mod History
mod State
mod Craft
mod Memory
mod Journals
mod Candidates
mod Storage
mod Proxy
mod Runtime
mod Tracker
