-- ===== src/Keyring.antt =====
-- keyring.go: the ring of AES keys, with the primary key that encrypts. A `nil` primary key is
-- `none`. `copyBytes` is the identity on contents; the ring's own keys are never written to.
pub mod Keys
pub mod Laws
pub mod RemoveLaws
