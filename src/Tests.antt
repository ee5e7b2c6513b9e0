-- ===== src/Tests.antt =====
-- Runs of the development on concrete values, and its theorems applied to them.
mod Messages
mod Servers
mod Records
mod Conn
mod Sessions
