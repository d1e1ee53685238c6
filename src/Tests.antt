-- ===== src/Tests.antt =====
-- Examples of the theorems, in a database in memory.
mod Memory
mod Plays
mod Turns
mod Units
mod Requests
mod Sessions
mod Admins
mod Upkeep
mod Duels
mod Accounts
mod Sockets
mod Workers
mod Start
mod Copies
mod Routes
mod Profiles
