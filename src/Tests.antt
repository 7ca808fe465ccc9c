-- ===== src/Tests.antt =====
-- The theorems at concrete inputs: tables in memory, one user with a plan, and packages that are
-- functions.
mod Fixtures
mod Packages
mod Accounts
mod Billing
mod Signup
mod Requests
mod Landmarks
mod Submissions
mod Review
mod Deletion
mod Uptime
mod Suggestions
mod Logs
mod Creation
mod Formats
mod Sharing
mod Quotas
mod Startup
mod Edits
