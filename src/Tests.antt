-- ===== src/Tests.antt =====
-- Inputs that follow the tests of the repository, at which the theorems are applied and the model is
-- run.
mod Instructions
mod Trading
mod Stakes
mod Plans
mod Histories
mod Trades
mod Pools
mod Stakers
mod Funds
