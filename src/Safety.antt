-- ===== src/Safety.antt =====
-- What every operation of the ticket service keeps, from what its single steps keep, and the
-- inventory's safety as the main instance.
pub mod Rules
pub mod Quiet
pub mod Queues
pub mod Orders
pub mod Checkouts
pub mod History
