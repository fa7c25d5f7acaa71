-- ===== src/Agent.antt =====
-- antnet.h and antnet.cc: the Antnet agent of one node, a part of it to a module.
pub mod State
pub mod Memorize
pub mod Hops
pub mod Receive
pub mod Send
pub mod Init
pub mod Traffic
pub mod Command
mod Tests
