-- ===== src/Protocol.antt =====
-- common/protocols.h and common/protocols.cpp: the three protocols that packets are written in.
-- `State` declares what they share, `V1`, `V2` and `V3` are the classes Protocol1 to Protocol3, and
-- `Dispatch` is AProtocol with its virtual functions.
pub mod State
pub mod Frame
pub mod V1
pub mod Short
pub mod Requests2
pub mod Answers
pub mod V2
pub mod V3
pub mod Dispatch
pub mod Schema
