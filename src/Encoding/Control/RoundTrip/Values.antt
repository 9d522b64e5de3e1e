-- ===== src/Encoding/Control/RoundTrip/Values.antt =====
-- The round trip of the values of every descriptor.
use opcua_drafts.Encoding.Types.{BuiltInType as B}
use opcua_drafts.Encoding.Control.Registry.{Registry}
use opcua_drafts.Encoding.Control.RoundTrip.Scalars
use opcua_drafts.Encoding.Control.RoundTrip.Names
use opcua_drafts.Encoding.Control.RoundTrip.Parts
use opcua_drafts.Encoding.Control.RoundTrip.Structures
use opcua_drafts.Encoding.Control.RoundTrip.Variants
use opcua_drafts.Encoding.Control.RoundTrip.Records
