-- ===== src/Spike.antt =====
-- The Spike interface, spike_interface/.
pub mod Utils
pub mod File
pub mod Htif
pub mod Dts
