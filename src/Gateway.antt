-- ===== src/Gateway.antt =====
-- herdres_gateway.py: the child command whose answer decides on a checkpoint, and the dispatch of a
-- leased row by that checkpoint.
mod Words
mod Envelope
mod Command
mod Wire
mod Written
mod Dispatch
mod Refined
mod Settles
mod Settled
mod Delivered
mod Poll
mod Polled
mod Unread
mod Examples
mod PollExamples
mod SettledExamples
