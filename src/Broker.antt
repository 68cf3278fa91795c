-- ===== src/Broker.antt =====
-- bot/src/broker: the events of the program, and the timers that deliver them.
pub mod Timers
pub mod Events
mod Tests
