-- ===== src/Tests.antt =====
-- Runs of the model at concrete inputs.
mod Fixtures
mod Requests
mod Values
mod Subscriptions
mod Schedules
mod Commands
mod Trees
mod Queries
mod Services
mod Servers
mod Nodes
