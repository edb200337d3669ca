-- ===== src/Risk.antt =====
-- engine/risk.py: the single choke point between a Decision and its execution.
pub mod Sizing
pub mod State
pub mod Manager
pub mod Guards
pub mod Clearance
pub mod Effects
pub mod Halts
unfoldable pub use Sizing.*
unfoldable pub use State.*
unfoldable pub use Manager.*
