-- ===== src/Modem.antt =====
-- The data of include/modem/xe310.h and the interface of `class xE310` that the network state
-- machine calls. A `FixedString` is the list of the bytes that it holds.
pub mod Types
pub mod Configs
pub mod Interface
pub mod Text
pub mod Print
pub mod Lines
pub mod Parse
pub mod Device
pub mod Driver
