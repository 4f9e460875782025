-- ===== src/Legacy.antt =====
-- The console program of relay.cpp, an older form of the service in one file. Where its functions
-- are the service's word for word, they are those of Input and Relay.
pub mod Bill
pub mod Netlist
pub mod Chain
pub mod Convert
pub mod Csv
pub mod Main
