-- ===== src/Context.antt =====
-- otel/src/context: the storage of contexts with its stacks, the scopes that detach them, and the
-- contexts' own values.
pub mod Storage
pub mod LocalRoot
pub mod Scope
pub mod Mirror
pub mod Forks
pub mod Stacks
pub mod Detaching
pub mod Switching
pub mod Scopes
pub mod Values
pub mod Entries
mod Examples
