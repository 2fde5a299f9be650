-- ===== src/Sched/Serial.antt =====
-- The turn is exclusive: what every operation does to the tokens in the wait slots, and what follows
-- for every run.
pub mod Quiet
pub mod Rounds
pub mod Passes
pub mod Gives
pub mod Calls
pub mod Token
pub mod Reach
pub mod Exclusive
pub mod Handover
