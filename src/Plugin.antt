-- ===== src/Plugin.antt =====
-- The Nix plugin, plugin/. What it calls of Nix is a parameter.
pub mod Accessor
pub mod Blob
pub mod Record
pub mod Nix
pub mod Store
pub mod StoreView
pub mod Tarball
pub mod Ctx
mod Runs
