-- ===== src/Control.antt =====
-- mctp-base-lib/src/control: the MCTP control protocol.
pub mod CommandCode
pub mod CompletionCode
pub mod MessageType
pub mod Medium
pub mod EnumWire
pub mod Header
pub mod Message
pub mod Status
pub mod Empty
pub mod SetEid
pub mod GetEid
pub mod AllocateEids
pub mod GetRoutingTable
pub mod Payload
pub mod Tests
