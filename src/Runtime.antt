-- ===== src/Runtime.antt =====
-- tilepo/runtime: the residency of tiles, the metrics, and the handling of a request.
pub mod States
pub mod Metrics
pub mod Engine
