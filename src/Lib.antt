-- ===== src/Lib.antt =====
-- The relay configuration service, which reads the bill of materials and the netlist of a test
-- board, works out a configuration row for each relay, and stores the rows in a file and in a
-- database.
--
-- The parts, and how they interact. A request goes to `handleQuery` (main.cpp), which takes a
-- connection from the pool (CIBData.h), reads both files (Input.cpp), converts the relays
-- (Relay.cpp), writes the configuration file and the tables (Output.cpp), and returns the connection
-- on the path without an exception. `main` makes the pool, registers the handlers and lets the
-- framework run until a request stops it.
--
--   Data       the structs of CIBData.h
--   Input      class Input of Input.h and Input.cpp: Bill (getBillData), Netlist (getNetlistData),
--              Filter (filterNetlistData), Chain (getDeviceOrder), Models (getRelayModels and
--              getInputData)
--   Relay      class Relay of Relay.h and Relay.cpp: Pin, Enum, Device (convertChain and
--              convertDevice), Port, Drive, Normal, and Convert (relayConvert)
--   Output     class Output of Output.cpp: Csv (outputRelayData) and Save (saveData)
--   Pool       class MySQLConnectionPool of CIBData.h; Steps has the threads that use it, Threads
--              those that sleep on its condition variable, and Contract what it promises
--   Server     handleQuery of main.cpp; Interleaved and Phases have queries that overlap
--   Service    main and stopService of main.cpp
--   Legacy     the console program of relay.cpp: Bill, Netlist, Chain, Convert, Csv and Main; what is
--              the service's code word for word is taken from Input and Relay
--   Common, Text   lists, results, signed numbers, and the operations of std::string, with
--              `std::stoi` and `std::to_string` on 32-bit numbers
--   Tests      the theorems at concrete inputs
--
-- Below a module stand its proofs, each in a module named for what it shows. Functions have the
-- names of the code in lower case. A std::string is its list of bytes, a file the list of lines that
-- `getline` returns, a map or a vector a list. A function that may throw, or run into undefined
-- behaviour, returns a Result: `err` is an exception of `stoi` or of the database, undefined
-- behaviour, or a loop that has no fuel left. A local that the code does not assign is a parameter,
-- `junk`.
--
-- Fuel. The loop of `getDeviceOrder` takes its fuel as an argument, since it need not end: one round
-- more than the netlist has data inputs decides what it does, and a finite chain ends with one round
-- more than the rank of its first expander. The loop over a quoted cell has two rounds more than the
-- line has characters, and the search for underscores one round more than the name has characters,
-- which is shown to be enough wherever the code ends. Memory has no limit: a loop that fills a vector
-- for ever runs out of fuel, where the code would at last meet `std::bad_alloc`.
--
-- Parameters. The MySQL connector is `Database`: whether a statement can be prepared, and what its
-- execution makes of the database. The JSON reader is what a request holds. The web framework is
-- which of the registered handlers it selects for a request, and whether `loadConfigFile`,
-- `addListener` and `run` return; if `run` throws, the requests are those that came before. Behind
-- `quit` it hands out no request, and a request that waits or does not end leaves the others a
-- thread. The order of threads is that of their calls, each of which runs under the mutex of the
-- pool; in Server/Interleaved what a query does between its calls of the pool is one step, and in
-- Server/Phases the writing of the file is taken apart.
--
-- Not modelled: the console output and the log; the libraries under drogon, trantor, json, jdbc, lib,
-- bin and x64.
pub mod Common
pub mod Text
pub mod Data
pub mod Input
pub mod Relay
pub mod Output
pub mod Pool
pub mod Server
pub mod Service
pub mod Legacy
mod Tests
