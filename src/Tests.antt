-- ===== src/Tests.antt =====
-- Runs of the model on concrete packets, sessions, connections, requests and configurations.
mod Toy
mod AuthenPackets
mod ArgPackets
mod Connections
mod Serving
mod Logins
mod Authorizing
mod Accounts
mod Loading
mod Exchange
mod Copies
mod Records
