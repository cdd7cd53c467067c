-- ===== src/Collectors.antt =====
-- sources/agent/src/collectors: the registry and the collectors.
pub mod Registry
pub mod Ram
pub mod ProcStat
pub mod Nvml
pub mod Rapl
pub mod Kinds
