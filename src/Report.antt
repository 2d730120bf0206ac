-- ===== src/Report.antt =====
-- What the packets give to a structured logger: the `String` methods of the fields, the `Fields`
-- methods of the packets, and the writer of response_logger.go.
pub mod Decimal
pub mod Names
pub mod Flags
pub mod Maps
pub mod Requests
pub mod Shown
pub mod Total
pub mod Mirrored
