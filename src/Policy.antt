-- ===== src/Policy.antt =====
-- The five scheduling policies: src/algorithms, and their table in src/core/policy.c.
pub mod Scan
pub mod Fcfs
pub mod Sjf
pub mod Stcf
pub mod Rr
pub mod Mlfq
pub mod Registry
pub mod Choice
pub mod Orders
pub mod Levels
pub mod MultiLevel
pub mod MultiLevelTick
pub mod Picked
pub mod MultiLevelContract
pub mod Expected
pub mod RoundRobin
pub mod Scanning
pub mod Runs
pub mod InTurn
pub mod Selection
pub mod LeastRuns
pub mod ShortestRuns
pub mod ShortestFirst
pub mod Slice
pub mod TimeSlice
pub mod Rules
pub mod Placement
pub mod Boost
pub mod OwnLevel
pub mod Outranks
pub mod LeveledContract
pub mod HighestRuns
pub mod Allotment
