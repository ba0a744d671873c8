-- ===== src/Client.antt =====
-- herdres_connector/tendwire_client.py: the command that is sent to Tendwire, and the tests that its
-- answer has to pass.
mod Verdicts
mod Commands
mod Results
mod Answers
mod Process
mod Sound
mod Decided
mod Answered
mod Unsent
mod Examples
