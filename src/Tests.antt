-- ===== src/Tests.antt =====
-- Each theorem applied at an input that meets its hypotheses, and runs of the service at that input.
mod Samples
mod Valid
mod Histories
mod Decisions
mod Sessions
mod Platform
mod Credentials
mod RateLimits
mod Resets
mod Routes
mod Quotas
