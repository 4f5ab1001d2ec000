-- ===== src/Scaffold.antt =====
-- src/scaffold: mirroring a package-local folder into the target tree.
pub mod Walk
pub mod Expander
pub mod Glob
pub mod PathGuards
pub mod Classify
pub mod Mirror
pub mod Filenames
