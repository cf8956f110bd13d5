-- ===== src/Tests.antt =====
-- Concrete states of the services, and the results on them.
pub mod Gates
pub mod Shop
pub mod Sales
pub mod People
pub mod Logins
pub mod Managers
pub mod Doors
pub mod Bills
pub mod Views
pub mod Reports
pub mod Orders
