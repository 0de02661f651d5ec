-- ===== src/Proto.antt =====
-- The protobuf descriptors and the annotations of package j5 that the query code reads.
pub mod Annotation
pub mod Descriptor
unfoldable pub use Annotation.*
unfoldable pub use Descriptor.*
