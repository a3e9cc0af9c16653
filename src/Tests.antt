-- ===== src/Tests.antt =====
-- Runs of the theorems at concrete inputs.
mod Mwc
mod Core
mod Stress
mod Messages
mod Net
mod Udp
mod UdpClient
mod UdpTest
mod Divfloat
mod Kernels
mod Tlb
mod Launch
