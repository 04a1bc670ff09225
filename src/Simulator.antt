-- ===== src/Simulator.antt =====
-- The supply-chain simulator, services/supply-chain-simulator/src/supply_chain_simulator.
pub mod Models
pub mod Decisions
pub mod Tick
pub mod Schema
pub mod Migration
pub mod Connection
pub mod Seed
pub mod Main
mod Tests
