-- ===== src/Tests.antt =====
-- Small systems, runs on them, and the theorems at such inputs.
mod System
mod Queues
mod Scheduling
mod Messages
mod Rings
mod Timing
mod Services
mod Strings
mod Processes
mod Devices
mod Keyboard
mod Signals
mod Start
mod Terminal
mod Keys
