-- ===== src/Lib.antt =====
-- The client of an Aeron archive, a C++ library, as functions on values and explicit states.
--
-- A program makes a `Context` from a `Configuration`, which comes from the environment or from a file
-- that the `PropertiesReader` reads, and connects with it an `AeronArchive`. This sends its requests
-- through an `ArchiveProxy`, and reads the answers through a `ControlResponsePoller` and, for lists of
-- recordings, a `RecordingDescriptorPoller`. `ChannelUri` reads and writes the channels of all of them.
-- `RecordingPos` and `RecordingEventsAdapter` stand beside the client. The programs of samples/ load a
-- configuration, connect a client, and work on it.
--
-- The files and the code they are about:
--   ChannelUri.antt, ChannelUri/                 src/ChannelUri.h, src/ChannelUri.cpp
--   PropertiesReader.antt, PropertiesReader/     src/util/PropertiesReader.h, src/util/PropertiesReader.cpp
--   Configuration.antt, Configuration/           src/Configuration.h, src/Configuration.cpp
--   Context.antt, Context/                       src/Context.h, src/Context.cpp
--   ArchiveProxy.antt, ArchiveProxy/             src/ArchiveProxy.h, src/ArchiveProxy.cpp
--   ControlResponsePoller.antt and its folder    src/ControlResponsePoller.h, src/ControlResponsePoller.cpp
--   RecordingDescriptorPoller.antt, its folder   src/RecordingDescriptorPoller.h and .cpp
--   AeronArchive.antt, AeronArchive/             src/AeronArchive.h, src/AeronArchive.cpp
--   RecordingPos.antt, RecordingPos/             src/RecordingPos.h, src/RecordingPos.cpp
--   RecordingEventsAdapter.antt and its folder   src/RecordingEventsAdapter.h and .cpp
--   Samples.antt, Samples/                       samples/SamplesUtil.h and the .cpp files of samples/
--   Aeron.antt, Codecs.antt                      what these files use of Aeron and of the SBE codecs
--   Prelude.antt, Prelude/                       numbers, lists, texts, and code that may throw
--
-- A method keeps its name, in small letters: `AeronArchive::pollForResponse` is
-- `AeronArchive.Polling.poll_for_response`, and a class is the record of its fields. A method that may
-- throw gives a `Result`; one that changes its object, or the world outside, is an `Exec`, which keeps
-- what was written before a throw. Overloads have a word added (`stop_recording_subscription`).
-- Strings are lists of bytes. Integers of the wire are of type ℤ; a conversion to `int32_t` is
-- `to_int32`. A `std::unordered_map` is an association list without an order: what iterates over it takes
-- the iteration as an argument, and the theorems about it hold for each reordering.
--
-- Aeron, the generated codecs, the clock, the file system and `boost::lexical_cast` are not in the
-- repository. They are records of operations that the definitions take as arguments; what a theorem
-- supposes of them is a record too: `Polls` is the documented behaviour of a controlled poll and
-- `FragmentPolls` that of a plain one, `Ticks` a clock that does not run backwards and moves while
-- the client idles, `Streams` and `Flows` subscriptions on which messages wait in an order, `Silence`
-- one on which nothing arrives, and `Finite` one on which some messages wait and no more arrive. What
-- the driver makes after some yields is `FoundAfter`. `boost::program_options` is not modelled: a
-- program of samples/ takes the values of its options, and gives its exit code.
--
-- The two threads of samples/RecordingThroughput.cpp are a step relation, `Samples.Throughput.Step`, in
-- which each access to a shared member is one step, and `Run` is any number of steps; progress events
-- of other recordings are among them, since the handlers do not look at the recording id. The program
-- around it, from the constructor to the end of `main`, is `Samples.Throughput.Main`: its `Turn`s
-- start and join the polling thread, and make the steps of one run after the other.
--
-- `ChannelUri.View` is the quotient of the URIs by what a client can look up, on which the order of the
-- parameters is forgotten.
--
-- Loops over data are structural. `offer` has as much fuel as attempts, and one round more for none.
-- The loops that wait take fuel, and raise `out_of_fuel`, which is no exception of the program, when it
-- is used up: the fuel is an argument of each, and the theorems about them hold for any, or name the
-- fuel that is enough.
--
-- A timeout is a number of nanoseconds from 0 on; a negative one is not modelled.
--
-- Not modelled: the tests; what the samples print, and the reading of their options; the mutex,
-- since a call under it is one action on the state; `tags_` of a URI, which is never used; the
-- constructor of `AeronArchive` from an `ArchiveProxy`, which is a stub; the handlers of images,
-- which are passed on to Aeron; the texts of exceptions, in whose place stand the data that they
-- show.
pub mod Prelude
pub mod Aeron
pub mod Codecs
pub mod ChannelUri
pub mod PropertiesReader
pub mod Configuration
pub mod Context
pub mod ArchiveProxy
pub mod ControlResponsePoller
pub mod RecordingDescriptorPoller
pub mod AeronArchive
pub mod RecordingPos
pub mod RecordingEventsAdapter
pub mod Samples
