-- ===== src/Tests.antt =====
-- The theorems at concrete inputs.
mod Triggers
mod Versions
mod Texts
mod Packages
mod Alternatives
mod Varbufs
mod Queues
