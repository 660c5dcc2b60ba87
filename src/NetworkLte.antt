-- ===== src/NetworkLte.antt =====
-- The LTE network state machine: include/modem/network_lte.h and src/network_lte.cpp.
pub mod Types
pub mod Trace
pub mod State
pub mod Events
pub mod ChangeState
pub mod Actions
pub mod Urc
pub mod Loop
pub mod Api
pub mod Invariant
pub mod Faults
pub mod Fields
pub mod Servers
pub mod Wire
pub mod Psm
pub mod Modes
