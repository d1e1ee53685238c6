-- ===== src/Crypto.antt =====
-- backend/crypto: the hash of a secret number, the random guess, tokens and passwords.
pub mod Secret
pub mod Random
pub mod Token
