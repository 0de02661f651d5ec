-- ===== src/Examples.antt =====
-- Tests and examples, run on the fixture.
mod Runs
mod Parts
mod Config
mod Paths
mod Lists
mod Queries
mod Gets
mod Searches
mod Migrations
