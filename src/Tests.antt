-- ===== src/Tests.antt =====
-- The theorems at concrete inputs, and runs of the model.
mod Data
mod Agent
mod Executor
mod Init
mod Watch
mod Job
mod Builder
mod Logs
mod Execution
mod Transfer
mod Server
mod Untar
mod Archive
mod Serving
mod Copy
