-- ===== src/Partition.antt =====
-- internal/domain/service/workload_partitioner.go and internal/domain/model/partition.go: the share
-- of a distributed workload that each worker gets.
pub mod Numbers
pub mod Shares
pub mod Nodes
pub mod Scenarios
pub mod Workload
mod Agreement
mod Summaries
mod Totals
mod Documents
mod Tests
