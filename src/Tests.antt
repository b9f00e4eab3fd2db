-- ===== src/Tests.antt =====
-- Runs of the code on concrete data, and the theorems at such data.
mod Data
mod Inventories
mod Sessions
mod Fetches
mod Transports
mod Identities
mod Resolvers
mod Services
mod Consoles
mod Mains
mod Machines
mod Runs
mod Guarded
