-- ===== src/Tests.antt =====
-- Runs on concrete inputs: tests of the definitions, and each theorem with hypotheses applied where
-- they hold.
mod Cluster
mod Votes
mod Logs
mod Runs
mod Elections
mod Commands
mod Stores
mod Storages
mod Calls
mod Services
mod Clients
mod Files
mod Settings
mod Installs
mod Network
mod Terminal
