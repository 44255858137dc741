-- ===== src/Ticket.antt =====
-- ticket.py and app/middleware/experience_map_ticket.py: the tickets of the paths of a session.
pub mod Verify
pub mod Middleware
pub mod Laws
