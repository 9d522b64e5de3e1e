-- ===== src/Arrow.antt =====
-- extras/core-specs/arrow-encoding/tools.
pub mod NodeIdText
mod Tests
