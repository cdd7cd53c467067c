-- ===== src/Tests.antt =====
-- The theorems at concrete states of the agent.
mod Buffers
mod Streams
mod Deliveries
mod Sessions
mod Commands
mod Collecting
mod Configs
mod Agents
mod Threads
mod Platforms
