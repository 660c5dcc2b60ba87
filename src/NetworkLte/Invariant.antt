-- ===== src/NetworkLte/Invariant.antt =====
-- What every step of the LTE state machine (src/network_lte.cpp) keeps.
pub mod Power
pub mod Attach
pub mod Data
pub mod Loop
pub mod Machine
pub mod Target
