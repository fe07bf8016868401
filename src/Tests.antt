-- ===== src/Tests.antt =====
-- Runs of the development's definitions at concrete inputs, by part.
mod Limits
mod Stores
mod Formats
mod Records
mod Flows
mod Requests
mod Logins
mod Samples
mod Settings
mod Web
mod Api
mod Stats
mod Network
