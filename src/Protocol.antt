-- ===== src/Protocol.antt =====
-- protocol.h and protocol.cpp: the wire protocols, and the key list of multi-key commands.
pub mod Base
pub mod Redis
pub mod Keylist
pub mod Text
pub mod Binary
