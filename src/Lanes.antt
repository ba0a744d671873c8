-- ===== src/Lanes.antt =====
-- herdres_connector/ingress_lanes.py: the durable spool of Telegram updates, in lanes.
pub mod Key
pub mod Rows
pub mod Spool
pub mod Claim
pub mod Leases
pub mod Calls
pub mod Rewrites
pub mod Valid
pub mod Picked
pub mod Claimed
pub mod Enqueued
pub mod Ingest
pub mod History
pub mod Head
pub mod Settled
pub mod Replay
pub mod Depth
pub mod Holders
pub mod Backoff
mod Examples
pub mod Quiet
pub mod Tenure
