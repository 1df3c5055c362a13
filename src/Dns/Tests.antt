-- ===== src/Dns/Tests.antt =====
-- Concrete runs of core/dns: the theorems applied to sample data.
mod Samples
mod OfCache
mod OfRules
mod OfHandler
mod OfChecks
mod OfListener
