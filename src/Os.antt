-- ===== src/Os.antt =====
-- The callbacks and messages for an operating system: src/common/hzl_CommonOsTime.c,
-- hzl_CommonOsTrng.c and hzl_CommonOsNewMsg.c.
--
-- What the system calls give is an argument.
pub mod Clock
pub mod Random
pub mod Messages
