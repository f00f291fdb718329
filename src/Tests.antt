-- ===== src/Tests.antt =====
-- Each theorem at a concrete input, and runs of the modelled code.
mod Answers
mod Conns
mod Entries
mod Eviction
mod Groups
mod Ids
mod Logs
mod Cluster
mod Rings
mod Lines
mod Waits
mod Deliveries
mod Rivals
mod Caches
mod Proposals
mod Timers
mod Workers
mod Pools
mod Queues
mod Servers
mod Recovery
