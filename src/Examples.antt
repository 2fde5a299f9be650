-- ===== src/Examples.antt =====
-- The properties at concrete states, in which their hypotheses hold.
mod Queues
mod Maps
mod Turns
mod Times
mod Runs
mod Order
mod Outside
mod Forks
mod Locks
mod Sems
mod Rwlocks
mod Threads
mod Hooks
mod Plain
mod Log
