-- ===== src/Protocol/Answers.antt =====
-- What a client makes of the packets that a server sends: `Short` for protocols 1 and 2, `V3` for protocol 3, and
-- `Enum` and `Wrap` for its list of devices.
pub mod Short
pub mod V3
pub mod Enum
pub mod Wrap
