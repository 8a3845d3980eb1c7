-- ===== src/Examples.antt =====
-- Runs of the definitions on concrete data, one for each theorem with hypotheses.
mod Streams
mod Providers
mod Payments
mod Access
mod Limits
mod Sockets
mod Accounts
mod Conversations
mod Catalogs
mod Agents
