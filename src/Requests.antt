-- ===== src/Requests.antt =====
-- herdres_connector/ingress_requests.py: the durable record of one command, from its first sight to
-- its outcome. Stores of the current record version are modelled.
pub mod Types
pub mod Child
pub mod Record
pub mod Lifecycle
pub mod Evidence
pub mod Parts
pub mod Raised
pub mod Stable
pub mod Envelope
pub mod Opened
pub mod Finished
pub mod Outcomes
pub mod Legacy
pub mod Evidenced
pub mod Receipts
pub mod Linked
mod Submitted
mod Written
pub mod Refresh
pub mod History
pub mod Kept
pub mod Replays
pub mod Store
pub mod Stored
pub mod Shell
pub mod Preflight
pub mod Returned
pub mod Framed
pub mod Witnessed
pub mod Pruned
pub mod Cached
mod StoreExamples
mod HistoryExamples
mod SampleExamples
mod LifecycleExamples
mod EvidenceExamples
