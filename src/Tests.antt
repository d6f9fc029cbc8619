-- ===== src/Tests.antt =====
-- Runs and applications of the theorems at concrete inputs.
pub mod Objects
pub mod Lawful
pub mod Texts
pub mod Arrays
mod Policies
mod Inventories
mod Handlers
mod Scenario
mod Guests
mod Copying
mod Templates
mod Startups
mod Phases
