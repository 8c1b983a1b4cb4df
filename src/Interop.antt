-- ===== src/Interop.antt =====
-- What one party builds is what the other reads: src/server and src/client together, over the
-- messages of inc/hzl.h.
pub mod SecuredFd
pub mod Delivery
pub mod EndToEnd
pub mod Request
pub mod Response
pub mod Drawn
pub mod Answer
pub mod Arrival
pub mod Handshake
pub mod Shared
pub mod Agreement
pub mod Renewal
