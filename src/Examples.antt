-- ===== src/Examples.antt =====
-- The theorems at concrete inputs, and runs of the models. The worlds used here stand in for an
-- operating system.
mod Systems
mod PadServer
mod Links
mod Streams
mod Desk
mod Screens
mod Boxes
mod Threads
mod Bench
mod Tapes
mod StartUp
mod Clients
