-- ===== src/Tests.antt =====
-- Concrete runs, at which the theorems apply.
mod Data
mod Packing
mod Workflows
mod Stores
mod Workers
mod Publishers
mod Systems
mod Apis
mod Benchmarks
mod Handling
mod Services
