-- ===== src/Examples.antt =====
-- The properties at concrete inputs, and small runs of the functions.
mod Amounts
mod Risks
mod Scans
mod Runs
mod Orders
mod Registrations
mod Launches
mod Failures
mod Index
