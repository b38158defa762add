-- ===== src/Samples.antt =====
-- The programs of samples/. `Listings` has samples/SamplesUtil.cpp, `Driver` samples/DriverControl.cpp,
-- `Publisher` and its children samples/RecordedBasicPublisher.cpp, `Throughput` samples/RecordingThroughput.cpp
-- and `Replayer` samples/ReplayedBasicSubscriber.cpp. What they print is left out.
pub mod Listings
pub mod Latest
pub mod Publisher
pub mod Program
pub mod Driver
pub mod Outcomes
pub mod Replayer
pub mod Throughput
mod ClientTests
mod PublisherTests
mod LoopTests
