-- ===== src/Protocol/Op.antt =====
-- protocol.rs: the opcodes.
use michoi.Common.{ℕ}

abbrev pub request : ℕ
request = 0x01

abbrev pub reply : ℕ
reply = 0x03

abbrev pub answer : ℕ
answer = 0x05

abbrev pub unlock : ℕ
unlock = 0x06

abbrev pub media : ℕ
media = 0x0a

abbrev pub keepalive : ℕ
keepalive = 0x0c

abbrev pub call_setup : ℕ
call_setup = 0x0d

abbrev pub hangup : ℕ
hangup = 0x1e
