-- ===== src/Header/Pty.antt =====
-- src/common/hzl_CommonHeader.h, `hzl_PayloadType_t`.
use hazelnet.Base.{ℕ}

-- Session Renewal Notification
abbrev pub ren : ℕ
ren = 0

-- Response
abbrev pub res : ℕ
res = 1

-- Request
abbrev pub req : ℕ
req = 2

-- Secured Application Data over Transport Protocol
abbrev pub sadtp : ℕ
sadtp = 3

-- Secured Application Data over CAN FD
abbrev pub sadfd : ℕ
sadfd = 4

-- Unsecured Application Data
abbrev pub uad : ℕ
uad = 5
