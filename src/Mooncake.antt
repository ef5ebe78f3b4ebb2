-- ===== src/Mooncake.antt =====
-- vllm_ascend/distributed/mooncake_connector.py: the transfer of KV caches between nodes.
pub mod Tracker
pub mod Transfer
pub mod Connector
pub mod Sockets
pub mod Receiver
pub mod Worker
mod Tests
mod NodeTests
