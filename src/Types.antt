-- ===== src/Types.antt =====
-- pkg/types: the records that the components share.
pub mod Base
pub mod Change
pub mod Governance
pub mod Rollout
pub mod Runtime
pub mod Event
pub mod Actor
pub mod Audit
pub mod Requests
pub use Base.*
pub use Change.*
pub use Governance.*
pub use Rollout.*
pub use Runtime.*
pub use Event.*
pub use Actor.*
pub use Audit.*
pub use Requests.*
