-- ===== src/Router.antt =====
-- internal/router: the compiled route index.
pub mod Library
pub mod Pattern
pub mod Host
pub mod Predicate
pub mod Precedence
pub mod Tree
pub mod Compile
pub mod Match
pub mod Routes
