-- ===== src/Tests.antt =====
-- A small kernel, runs of the code on it, and each theorem at an input that meets its hypotheses.
mod Samples
mod Queues
mod Games
mod Locking
mod Feedback
mod Pages
mod Priorities
mod Sleep
mod Arithmetic
mod Waiting
mod Boots
mod Creating
mod Delays
mod Runs
