-- ===== src/Service.antt =====
-- service: the program that keeps the nodes, drives the core and serves the user interface.
pub mod Nodes
pub mod Database
pub mod Automation
pub mod Subscriptions
pub mod Process
pub mod Routing
pub mod Connections
mod Tests
