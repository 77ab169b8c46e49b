-- ===== src/Mesh.antt =====
-- loramesh/node: the code with which the simulator runs a node of a mesh library that is not part of the repository, over
-- a real-time system that is not either.
pub mod Shims
pub mod Radio
pub mod App
