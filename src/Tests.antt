-- ===== src/Tests.antt =====
-- Runs of the code, and the theorems at concrete data.
mod Samples
mod Payloads
mod Stores
mod Listings
mod Locks
mod Mapped
mod Files
mod Codec
mod Activities
mod Retries
mod Decisions
mod Releases
mod Singletons
mod Bundles
mod Events
mod Schemas
mod Databases
mod Records
mod Buses
mod Clusters
mod Addresses
