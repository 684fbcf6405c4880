-- ===== src/Tests.antt =====
-- Concrete values and runs of the models.
mod Fixture
mod Runs
mod Decisions
mod Services
mod Demo
mod Synthetic
mod Stores
mod Api
mod Reports
mod Clients
mod Schemas
