-- ===== src/Protocol/Family.antt =====
-- protocol.rs: the message families.
use michoi.Common.{ℕ}

abbrev pub page : ℕ
page = 0x005d

abbrev pub bootstrap : ℕ
bootstrap = 0x0098

abbrev pub session : ℕ
session = 0x00b7

abbrev pub monitor : ℕ
monitor = 0x00b8

abbrev pub elevator : ℕ
elevator = 0x0106
