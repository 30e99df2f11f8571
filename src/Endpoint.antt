-- ===== src/Endpoint.antt =====
-- The endpoint of examples/basic_bus_owner_loop.rs: its context, and how it answers control requests.
pub mod Context
pub mod Responder
pub mod Flow
pub mod BusOwner
pub mod Transport
pub mod Program
