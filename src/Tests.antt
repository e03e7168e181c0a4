-- ===== src/Tests.antt =====
-- The theorems at concrete inputs of the program, and runs of the model.
mod Cleanroom
mod Lane
mod Files
mod Graph
mod Intake
mod Devtask
mod Conversation
mod Warm
mod Manifests
mod Polling
mod Resolving
mod Specs
mod Patches
mod Stations
