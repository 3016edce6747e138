-- ===== src/System.antt =====
-- The parts together: a client program at one end, a device on a serial line at the other.
pub mod Command
