-- ===== src/Kakao/Laws.antt =====
-- What holds of turns: of their row through every statement, of a run, and of the callback.
pub mod Later
pub mod Steps
pub mod Delivery
pub mod Accept
pub mod Summary
pub mod Settle
pub mod Deliver
pub mod Settled
pub mod Outcome
