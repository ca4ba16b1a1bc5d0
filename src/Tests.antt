-- ===== src/Tests.antt =====
-- The theorems at concrete inputs: one running attempt, and small inputs for each component.
mod Data
mod Server
mod Attempts
mod Publishing
mod Broker
mod Configuring
mod Supervising
mod Reporting
mod Tasking
mod Defining
mod FreeTasks
mod Branches
mod Limits
mod Collecting
mod Components
