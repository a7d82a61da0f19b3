-- ===== src/Tests.antt =====
-- Concrete inputs, and the theorems applied to them.
mod Samples
mod Traps
mod Users
mod Boots
mod Devices
mod Apps
mod Starts
mod Trees
mod Calls
mod Tables
mod Texts
mod Stacks
