-- ===== src/Examples.antt =====
-- The theorems at concrete inputs, and runs of the code.
mod Data
mod Money
mod Purchases
mod Runs
mod Prices
mod Queue
mod Documents
mod Sessions
mod Store
