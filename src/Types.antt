-- ===== src/Types.antt =====
-- src/types: the checker's types.
pub mod Ty
pub mod Effects
pub mod Namespace
pub mod Unify
pub mod Generics
pub mod Resolutions
pub mod Exhaustiveness
pub mod Env
pub mod Mutability
