-- ===== src/Cbor/RoundTrip.antt =====
-- What the canonical encoder writes, the canonical decoder reads back.
pub mod Header
pub mod Order
pub mod Value
pub mod Whole
