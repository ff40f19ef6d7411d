-- ===== src/Django.antt =====
-- What the program relies on from Django and is not under the repository: the cache, the session
-- store and signing, as interfaces with the documented laws.
pub mod Cache
pub mod Sessions
pub mod Signing
