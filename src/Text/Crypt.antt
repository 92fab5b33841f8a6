-- ===== src/Text/Crypt.antt =====
-- common/crypt.cpp: the checksum of a message and the encryption of bytes.
pub mod Xor
pub mod Tables
pub mod Crc
pub mod Dictionary
