-- ===== src/Tests.antt =====
-- Runs of the definitions at concrete inputs, and the theorems at inputs where their hypotheses hold.
mod Queue
mod Codes
mod Pool
mod Events
mod Bus
mod Messages
mod Start
mod Checksum
mod Persistence
mod Schema
mod Startup
mod Map
mod Heap
mod Clock
mod Log
mod Scenario
mod Semaphore
