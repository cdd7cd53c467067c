-- ===== src/Client.antt =====
-- sources/agent/src/client: the write queue of a stream, the control stream, the stream of metric
-- batches, and the client that answers the server's messages.
pub mod Writer
pub mod Stream
pub mod Delivery
pub mod Connect
pub mod Session
