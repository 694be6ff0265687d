-- ===== src/Data.antt =====
-- Access to data (py-utils/src/utils/data): filters, queries, and the database over Consul.
pub mod Filters
pub mod Queries
pub mod Models
pub mod Converter
pub mod Templates
pub mod Consul
