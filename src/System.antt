-- ===== src/System.antt =====
-- The parts together: requests of clients, the publisher and the workers, on one database and stream.
pub mod Coverage
pub mod Publishing
pub mod Settling
pub mod Guarding
pub mod Handling
pub mod Acknowledging
pub mod Delivering
pub mod Consuming
pub mod Requests
pub mod Serving
pub mod Locality
pub mod History
pub mod Answering
