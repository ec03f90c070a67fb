-- ===== src/Tests.antt =====
-- Concrete inputs, and the theorems applied to them.
mod Fixtures
mod Scheduling
mod Retries
mod Interleavings
mod Services
mod Edges
mod Steps
mod Providers
