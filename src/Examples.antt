-- ===== src/Examples.antt =====
-- Runs of the modelled code on small inputs, and instances of the theorems.
mod Links
mod Data
mod Writes
mod Access
mod Teams
mod Texts
mod Folded
mod Reads
mod Others
mod People
mod Sessions
