-- ===== src/Resilience.antt =====
-- src/resilience: retry budgets, reclamation, recovery and the table of timeouts.
pub mod RetryBudget
pub mod Reclaimer
pub mod Recovery
pub mod Timeout
