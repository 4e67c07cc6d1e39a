-- ===== src/Orders.antt =====
-- execution/order_manager.py: tickets, the atomic consumption of a ticket, recovery and submission.
pub mod Tickets
pub mod Consume
pub mod Submit
pub mod Approval
pub mod Gated
pub mod Returns
pub mod Evolve
pub mod Atomic
pub mod Complete
