-- ===== src/Json.antt =====
-- JSON documents: what Go's encoding/json makes of a value and hands back as `any`. A JSON text
-- is stood for by the document that it denotes; a text that is no JSON is `none` where one may
-- arrive.
mod Object
pub mod Decode
unfoldable pub use Object.*
