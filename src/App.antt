-- ===== src/App.antt =====
-- src/app: the use cases of the gateway, over the answers of its environment.
pub mod Error
pub mod World
pub mod Commit
pub mod Announced
pub mod CommitLaws
pub mod Receive
pub mod ReceiveLaws
pub mod Requests
pub mod Issue
pub mod Intraledger
pub mod Send
pub mod Track
pub mod SendLaws
pub mod TrackLaws
pub mod Gate
pub mod TransferLaws
pub mod Contradictions
pub mod HoldLaws
pub mod Jobs
pub mod JobLaws
