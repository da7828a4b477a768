-- ===== src/Proxy.antt =====
-- tavern-mnemosyne/src/proxy: the token budget of a provider step.
pub mod Budget
pub mod StepBudget
