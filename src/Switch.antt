-- ===== src/Switch.antt =====
-- userspace/switch/switch.c: the switch's configuration in shared memory. Each list of the C
-- structs is a List in its order, and an entry holds the pointer that mm_alloc gave for it, so that
-- the store and the allocator are one state. Every public function takes the lock on entry and
-- gives it back. The store takes `ftruncate` as the allocator does. Interface indices and VLAN
-- numbers are ints that are only compared; here they are natural numbers, 0 standing for what is
-- below the first valid one.
pub mod Store
pub mod Keyed
pub mod Tags
pub mod Descs
pub mod Passwords
pub mod Init
pub mod Owned
pub mod Keeps
pub mod View
pub mod Refines
pub mod Unique
pub mod Access
pub mod Defaults
