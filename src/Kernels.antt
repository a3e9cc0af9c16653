-- ===== src/Kernels.antt =====
-- The kernels of the memory stressors, and where their accesses go.
pub mod Membw
pub mod Tlb
pub mod TlbStep
pub mod Warn
pub mod Float
pub mod Avx
pub mod Cache
pub mod Integer
pub mod L1i
