-- ===== src/Service/Tests.antt =====
-- Concrete runs of the service's code.
mod OfNodes
mod OfDatabase
mod OfAutomation
mod OfSubscriptions
mod OfProcess
mod OfRouting
mod OfConnections
