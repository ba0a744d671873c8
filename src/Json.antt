-- ===== src/Json.antt =====
-- The values that `json.loads` gives, with whole numbers, and herdres_connector/safe.py's
-- `public_prune` of them.
pub mod Values
pub mod Prune
pub mod Same
pub mod Clean
pub mod Ascii
mod Examples
