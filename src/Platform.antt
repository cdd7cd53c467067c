-- ===== src/Platform.antt =====
-- sources/agent/src/platform: the loader of NVML, and the detection of the machine.
pub mod Loader
pub mod Detector
