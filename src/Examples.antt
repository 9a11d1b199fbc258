-- ===== src/Examples.antt =====
-- Tests of the models on concrete inputs, and the theorems at concrete inputs.
mod Numbers
mod Bridge
mod Setup
mod Gate
mod Position
mod Execution
mod Rotation
mod Session
mod Payload
mod Ordered
mod Risk
mod Exact
mod Runtime
mod Replay
mod Path
mod Polling
mod Supervisor
