-- ===== src/Tests.antt =====
-- Runs of the modelled code on concrete values, through the theorems.
mod Samples
mod Clocks
mod Messages
mod Masters
mod Links
mod Tables
mod Servos
mod Setup
mod Passes
mod Exchanges
mod Rounds
mod Arrivals
