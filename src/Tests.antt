-- ===== src/Tests.antt =====
-- The theorems at concrete inputs, with the libraries of `Toy`.
mod Toy
mod Zones
mod Files
mod Names
mod Numbers
mod Services
mod Refreshes
mod Reverses
mod Launches
mod Servers
mod HostRounds
mod Commands
