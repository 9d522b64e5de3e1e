-- ===== src/Encoding/Control.antt =====
-- opcua_enc/json_control.py: the type-directed control codec.
pub mod Access
pub mod Registry
pub mod Leaves
pub mod Encode
pub mod Decode
pub mod Typed
pub mod RoundTrip
mod Tests
