-- ===== src/Tests.antt =====
-- Theorems at concrete inputs: a small world that the parameters of the model are instantiated
-- with, and an instance of each theorem in it.
mod World
mod Slot
mod Wiring
mod Errors
mod Accounts
mod Caching
mod Requests
mod Locks
mod Calls
mod Delivery
mod Limits
mod OneRow
mod Documents
mod SqlRow
mod StaleCache
mod Server
mod Events
mod PostGet
mod Pages
mod Migrations
mod Random
mod Serving
mod Processes
mod Setup
mod Transports
mod Racing
