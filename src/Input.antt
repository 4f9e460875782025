-- ===== src/Input.antt =====
-- The class Input of Input.h and Input.cpp.
pub mod Bill
pub mod Netlist
pub mod Filter
pub mod Chain
pub mod Models
