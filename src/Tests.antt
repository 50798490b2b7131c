-- ===== src/Tests.antt =====
-- Runs of the theorems at concrete inputs.
pub mod Data
pub mod Files
pub mod Entries
pub mod Creation
pub mod Runs
pub mod Saves
pub mod Handlers
pub mod Layouts
pub mod Pickles
pub mod StateFiles
pub mod Listings
pub mod Rollbacks
pub mod MountOptions
pub mod RoundTrips
