-- ===== src/Session.antt =====
-- ticket.go and common.go: session tickets and the keys that protect them.
pub mod Keys
pub mod Ticket
pub mod Cache
