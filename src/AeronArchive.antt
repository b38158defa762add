-- ===== src/AeronArchive.antt =====
-- The client of an archive: src/AeronArchive.h and src/AeronArchive.cpp. `Base` has its state,
-- `Polling` the loops that wait for the archive, `Commands` the operations, `Connect` the constructor;
-- the proofs are in the other children.
pub mod Base
pub mod Polling
pub mod Commands
pub mod Connect
pub mod Opened
pub mod Sessions
pub mod Connecting
pub mod Responses
pub mod Reading
pub mod Replies
pub mod Timeouts
pub mod Unopened
pub mod Concluded
pub mod Settled
pub mod Finished
pub mod Shown
pub mod Returning
pub mod Calls
pub mod Listing
pub mod Listed
pub mod Lists
pub mod Narrowing
pub mod Deadline
pub mod Found
pub mod Answered
pub mod Replayed
pub mod Recorded
pub mod Errors
pub mod Sample
mod Tests
mod PollTests
mod ChannelTests
mod ConnectTests
mod CallTests
