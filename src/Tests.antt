-- ===== src/Tests.antt =====
-- Concrete runs: the theorems at inputs that meet their hypotheses, and runs of the code.
mod Data
mod Runs
mod Plans
mod Stored
mod Tokens
mod Dispatched
mod Secrets
mod Systems
mod Retries
mod Texts
mod Access
mod Configs
mod Submissions
