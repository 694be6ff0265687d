-- ===== src/MessageBus.antt =====
-- The message bus (py-utils/src/utils/message_bus): the endpoints of the brokers, and the clients.
pub mod Servers
pub mod Clients
