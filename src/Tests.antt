-- ===== src/Tests.antt =====
-- The theorems at concrete inputs of the configuration service.
mod Samples
mod Bills
mod Netlists
mod Chains
mod Relays
mod Files
mod Phases
mod Pools
mod Runs
mod Conversions
mod Totals
mod Written
mod Services
mod Threads
mod Console
mod Programs
