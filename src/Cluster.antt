-- ===== src/Cluster.antt =====
-- cluster_client.h and cluster_client.cpp: the client of a cluster, which sends every key to the connection of
-- the shard that its hash slot belongs to.
pub mod HashSlot
pub mod Crc
pub mod Shards
pub mod Ranges
pub mod Addresses
pub mod Assign
pub mod Routes
pub mod Reconnect
pub mod Requests
pub mod Pools
pub mod Keys
pub mod Spin
