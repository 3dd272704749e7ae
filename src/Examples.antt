-- ===== src/Examples.antt =====
-- Concrete servers, messages and codecs, and the theorems at them.
mod Codecs
mod Servers
mod Witnesses
mod Parts
mod Clusters
mod Programs
mod Backtracking
mod Starts
mod Typing
