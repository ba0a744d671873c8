-- ===== src/Outbox.antt =====
-- herdres_connector/telegram_delivery.py: `drain_outbox`, which sends the notices of Tendwire's
-- attention connector.
mod Drain
mod Bounded
mod Once
mod Acknowledged
mod Examples
