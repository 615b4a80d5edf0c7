-- ===== src/Examples.antt =====
-- Concrete runs of the components.
mod Sessions
mod Requests
mod Text
mod Services
mod Conversations
mod Database
mod Servers
mod Directories
mod Resumed
mod Client
