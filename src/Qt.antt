-- ===== src/Qt.antt =====
-- The containers and values of the Qt library, as far as the program uses them.
pub mod Key
pub mod Vector
pub mod Map
pub mod Json
pub mod Sorted
