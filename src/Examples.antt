-- ===== src/Examples.antt =====
-- The theorems of the library at work on small files and trees.
mod Files
mod Maps
mod Builds
mod Counts
mod Serial
mod Reading
mod Session
mod Trees
mod Runs
mod Groups
