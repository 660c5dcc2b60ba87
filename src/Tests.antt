-- ===== src/Tests.antt =====
-- The theorems at concrete inputs, with a concrete modem and a concrete serial line.
mod Fixtures
mod Hal
mod At
mod Commands
mod Radio
mod Rpc
mod Remote
mod Ipc
mod Machine
mod Survey
