-- ===== src/Scenarios.antt =====
-- Runs on concrete values: a plan of two orders, its ticket, and what the broker reports.
mod Opened
mod Values
mod Orders
mod Events
mod Gate
mod Live
mod Mismatch
mod Submission
mod Limits
mod Routes
mod Research
mod Signals
mod Accounts
mod Service
mod Securities
