-- ===== src/Encoding.antt =====
-- The shared encoding core, extras/core-specs/_common/opcua_enc.
pub mod HexDump
pub mod NodeSet
pub mod SymbolicId
pub mod Types
pub mod Values
pub mod Control
