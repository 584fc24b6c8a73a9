-- ===== src/Tests.antt =====
-- Tests, and examples of the theorems on concrete states.
mod States
mod Frames
mod Messages
mod Contexts
mod Sockets
mod Pollers
mod Transfers
mod Lives
mod Settings
mod Iterations
mod Loops
mod Beacons
mod Monitors
