-- ===== src/Text.antt =====
-- common/utilities.cpp and common/crypt.cpp: texts, their encryption and checksums. A text is the
-- list of its bytes.
pub mod Split
pub mod Numbers
pub mod Cipher
pub mod Crypt
