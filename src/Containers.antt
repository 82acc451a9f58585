-- ===== src/Containers.antt =====
-- The container library that the sources link (libdyn.so) and whose headers they include: a hash
-- map, a queue, a vector and a list. It is not part of the program, so each container is a record of its
-- operations, with what its header documents as laws. A value that meets the laws is beside each.
pub mod Entries
pub mod HashMap
pub mod Queue
pub mod Chain
pub mod Vector
pub mod Objects
pub mod Names
