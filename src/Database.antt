-- ===== src/Database.antt =====
-- VssDatabase.cpp and VssDatabase.hpp. rwMutex_ makes each use of a tree a single step.
pub mod Nodes
pub mod MetaData
pub mod Signals
pub mod Recording
pub mod Leaves
pub mod Metadata
pub mod Defaults
pub mod RoundTrip
pub mod Typing
pub mod Branches
pub mod Loading
pub mod Termination
