-- ===== src/Tests.antt =====
-- The properties at concrete inputs, and the parameters of the model as concrete functions.
pub mod Buffer
pub mod Config
pub mod Benchmark
pub mod Schedule
pub mod Protocol
pub mod ObjGen
pub mod Commands
pub mod Binary
pub mod Shard
pub mod Json
pub mod Client
pub mod Cluster
pub mod Files
pub mod Stats
pub mod Ends
