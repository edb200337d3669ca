-- ===== src/Evolution.antt =====
-- engine/evolution.py: challengers, from the statistical case to their promotion.
mod Ids
mod State
mod Splits
mod Samples
mod Proposals
mod Spawning
mod Notices
mod Promotions
pub mod Decimal
pub mod Naming
pub mod Accounts
pub mod Spawns
pub mod Cases
pub mod Machine
pub mod Turns
pub mod Advances
pub mod Walks
pub mod Refinement
unfoldable pub use Ids.*
unfoldable pub use State.*
unfoldable pub use Splits.*
unfoldable pub use Samples.*
unfoldable pub use Proposals.*
unfoldable pub use Spawning.*
unfoldable pub use Notices.*
unfoldable pub use Promotions.*
