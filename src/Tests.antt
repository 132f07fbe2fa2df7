-- ===== src/Tests.antt =====
-- Runs of the model over a scripted machine, and the theorems at concrete inputs.
mod Machine
mod Connection
mod Patching
mod Choosing
mod States
mod Secrets
mod Hosts
mod Products
mod Policies
mod Domains
