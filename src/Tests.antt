-- ===== src/Tests.antt =====
-- The theorems applied to small data: maps of a few systems, a cache, files and requests.
mod Data
mod Routes
mod Requests
mod Transit
mod Staging
mod Parsing
mod Cache
mod Service
mod Ranges
mod Preferences
