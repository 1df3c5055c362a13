-- ===== src/Dns.antt =====
-- core/dns: the DNS module.
pub mod Types
pub mod Cache
pub mod Net
pub mod Rule
pub mod Router
pub mod Metrics
pub mod Upstream
pub mod Module
pub mod Handler
pub mod Config
pub mod Validator
pub mod Response
pub mod Loop
pub mod Listener
mod Tests
