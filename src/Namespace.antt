-- ===== src/Namespace.antt =====
-- tools/pyUANamespace: the nodes of an address space, their references, and the order in which they
-- are printed. A node or a reference is an object with an identity: a number, under which the heap
-- holds its attributes. Comparisons of nodes and of references are those of Python 3, by identity.
pub mod NodeId
pub mod Heap
pub mod Inverse
pub mod Reorder
pub mod Space
pub mod Sanitize
pub mod Walk
pub mod Create
