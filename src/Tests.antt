-- ===== src/Tests.antt =====
-- Runs of the modelled code on small inputs, and the theorems at inputs that meet their hypotheses.
mod Samples
mod Queue
mod Intake
mod Traffic
mod History
mod Administration
mod Answered
mod Promises
mod Collation
mod Reads
mod Workers
mod Operators
mod Processes
mod Sources
mod Hooks
