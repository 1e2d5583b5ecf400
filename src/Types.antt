-- ===== src/Types.antt =====
-- packages/types/src: the data that the packages share.
mod Project
mod Chain
unfoldable pub use Project.*
pub use Chain.*
