-- ===== src/Tests.antt =====
-- Runs of the models at concrete inputs, by the part of the program.
mod Queues
mod Locking
mod Times
mod Buses
mod Connecting
mod SharedBuses
mod Sessions
mod Readers
mod Topics
mod Memories
