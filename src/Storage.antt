-- ===== src/Storage.antt =====
-- hymical_forms/storage.py: the persistence operations, a module for each table they serve.
pub mod Deliveries
pub mod Submissions
pub mod Sweep
pub mod RateLimits
pub mod Keys
pub mod Endpoints
pub mod Listings
