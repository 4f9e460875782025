-- ===== src/Relay.antt =====
-- The class Relay of Relay.h and Relay.cpp: one module for each conversion.
pub mod Pin
pub mod Enum
pub mod Port
pub mod Device
pub mod Drive
pub mod Normal
pub mod Convert
