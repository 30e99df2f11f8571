-- ===== src/Base.antt =====
-- mctp-base-lib/src/base and the derive macros of mctp-emu-derive: errors, the conversion of structs
-- to and from bytes, and the transport header.
pub mod Errors
pub mod Wire
pub mod TransportHeader
pub mod Tests
