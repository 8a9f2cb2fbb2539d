-- ===== src/Examples.antt =====
-- Runs of the model at concrete inputs, one module per part.
mod ChatGuids
mod Failures
mod Conversions
mod Clients
mod Transports
mod Replays
mod Sending
mod Services
mod Subscriptions
mod Streams
mod Resuming
mod Credentials
mod Echoes
mod Failing
