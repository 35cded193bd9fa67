-- ===== src/Text.antt =====
-- Strings: src/native-c/libc/core.c and src/native-c/libc/Am/Lang/String.c.
pub mod Utf8
pub mod Hash
pub mod Holder
pub mod Methods
mod Tests
