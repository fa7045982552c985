-- ===== src/Tests.antt =====
-- The theorems at concrete inputs, and runs of the definitions.
mod Codec
mod Services
mod Access
mod Limits
mod Names
mod Pages
mod Server
mod Sites
mod Retries
