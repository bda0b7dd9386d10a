-- ===== src/Tests.antt =====
-- The theorems at concrete inputs, and runs of the definitions.
mod Sample
mod Counters
mod Commands
mod Store
mod Events
mod Generators
mod Handles
mod Streams
mod Readers
mod Requests
mod Simulated
mod Products
mod Builders
mod Monitors
mod Metrics
