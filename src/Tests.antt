-- ===== src/Tests.antt =====
-- A scripted server, the tests and the theorems at concrete inputs.
mod Server
mod Controller
mod Parts
mod Node
mod Cycle
mod Attached
mod Host
mod Webhook
mod Backend
mod Slot
mod Volumes
mod Plugin
