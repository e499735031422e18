-- ===== src/Topology.antt =====
-- src/topology: what the machine says of its processors.
pub mod CpuList
pub mod Source
