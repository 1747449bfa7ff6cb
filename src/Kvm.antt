-- ===== src/Kvm.antt =====
-- nanograph-kvm: the allocator of object identifiers.
pub mod Allocator
mod Tests
