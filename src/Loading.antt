-- ===== src/Loading.antt =====
-- The functions for an operating system: hzl_ServerNew.c, hzl_ClientNew.c, hzl_ServerFree.c and
-- hzl_ClientFree.c under src, and the helpers that they share.
--
-- A file is the list of the bytes that are still to be read. The heap is a list of the allocated
-- blocks, and `calloc` may fail at each call.
pub mod Heap
pub mod Stream
pub mod Server
pub mod Client
pub mod Consumed
