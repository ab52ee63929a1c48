-- ===== src/Transport.antt =====
-- app/transport: the delivery of the queue to the cloud service.
pub mod Worker
pub mod Examples
