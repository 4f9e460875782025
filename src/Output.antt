-- ===== src/Output.antt =====
-- The class Output of Output.h and Output.cpp.
pub mod Csv
pub mod Save
