-- ===== src/Competitors/Art.antt =====
-- competitors/art_primary_lb.h: the adaptive radix tree over the eight bytes of a key.
pub mod Bounded
pub mod Descent
pub mod First
pub mod Built
pub mod Bytes
pub mod Children
pub mod Cursor
pub mod Found
pub mod Growth
pub mod Inserted
pub mod Iterated
pub mod Nodes
pub mod Ordered
pub mod Places
pub mod Seek
pub mod Shape
pub mod Slots
pub mod Splits
pub mod Traverse
pub mod Tree
pub mod Wide
