-- ===== src/Client.antt =====
-- src/client.rs: `ClientBuilder`, and `Client::send` and its parts in the modules below.
pub mod Link
pub mod Send
pub mod Ports
pub mod Connect
