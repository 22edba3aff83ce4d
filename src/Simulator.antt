-- ===== src/Simulator.antt =====
-- The simulator (routerpulse/simulator/src): devices that register, stake, beat and settle.
pub mod Acts
pub mod Triples
pub mod Router
pub mod Fleet
pub mod Parallel
