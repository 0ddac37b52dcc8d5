-- ===== src/Tests.antt =====
-- Witnesses and test data, a module for each part.
mod Timers
mod Uris
mod Webs
mod Clients
mod Services
mod Pools
mod Packets
mod Events
