-- ===== src/Capability.antt =====
-- protocol/capability.py: capability tokens, one child per part of the file.
pub mod Constraints
pub mod Temporal
pub mod Token
pub mod Usage
pub mod Attenuate
pub mod Chain
pub mod Owners
