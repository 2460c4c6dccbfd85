-- ===== src/Tests.antt =====
-- Concrete runs of the dispatcher, the scheduler, the stores, the handlers and the command.
mod Data
mod Dispatch
mod Schedule
mod Documents
mod Accepted
mod Register
mod Adapter
mod Devices
mod Owners
mod Installed
mod Commands
