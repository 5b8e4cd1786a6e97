-- ===== src/SmartData.antt =====
-- middleware/common/mblue_macro.h: a `SMART_DATA` word carries a payload pointer, an integer or a
-- pointer with a tag in its two low bits. The target is 32 bits wide (linux_m32.cmake).
mod Tags
mod Roundtrip
unfoldable pub use Tags.*
pub use Roundtrip.*
