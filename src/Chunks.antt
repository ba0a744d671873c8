-- ===== src/Chunks.antt =====
-- herdres_connector/rendering.py: how a long text is cut into the parts of one delivery.
pub mod Boundary
pub mod Spans
pub mod Cover
pub mod Joined
mod Examples
