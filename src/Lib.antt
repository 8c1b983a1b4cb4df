-- ===== src/Lib.antt =====
-- Hazelnet: the library of the CAN Bus Security (CBS) protocol, in C. One Server and several Clients
-- share secret Session keys (STK) per Group of nodes, and exchange secured CAN FD messages.
--
-- The parts, with the code under src/ of the repository and the public headers under inc/:
--   Err        inc/hzl.h, the error codes
--   Payload    src/common/hzl_CommonPayload.h and hzl_CommonInternal.h, lengths, offsets and labels
--   Header     src/common/hzl_CommonHeader.c, the seven packed forms of the CBS header
--   Endian     src/common/hzl_CommonEndian.c
--   Timing     src/common/hzl_CommonTimeDelta.c and hzl_CommonCtrDelay.c
--   Utils      src/common/hzl_CommonUtils.c
--   Platform   src/common/hzl_CommonAead.c and hzl_CommonHash.c, with what lies outside of the
--              library: LibAscon, the arithmetic of float, the callbacks of hzl_Io_t
--   Message    src/common: the messages, their checks, the AEAD and hash contexts of each kind
--   Server     src/server: the context, its initialisation, the messages built and processed
--   Client     src/client: the same for a Client
--   Loading    src/server/hzl_ServerNew.c and hzl_ServerFree.c, src/client/hzl_ClientNew.c and
--              hzl_ClientFree.c, HZL_SECURE_FREE
--   Os         src/common/hzl_CommonOsTime.c, hzl_CommonOsTrng.c and hzl_CommonOsNewMsg.c
--   Interop    theorems on both parties together: Request, Response, Drawn and Answer on the
--              messages of the handshake, Arrival, Handshake, Shared and Agreement on the whole of
--              it, SecuredFd, Delivery and EndToEnd on a secured message of the Server, Renewal on
--              its notification of a renewal
--   Base       lists as buffers, signed integers, bits; Tests   concrete inputs
--
-- A function of the code is a function here with the same name in snake case, without the prefix hzl_
-- and, in the modules of one party, without its name where that is clear (hzl_ServerCheckRxCtrnonce
-- is check_rx_ctrnonce of Server/Group). A handler takes the context hzl_ServerCtx_t or
-- hzl_ClientCtx_t and returns the error code, the new context and the written messages. The context
-- has flags for the pointers that may be NULL, and counts the calls of the callbacks: the n-th call
-- gives what the Platform says: for a random generator the code and the bytes that it wrote, also
-- beside an error code, as hzl_OsTrng writes them on a short read. Data behind `const` pointers into
-- the frame are lists of bytes, 64-byte arrays are lists that keep their length. The wrap-around of
-- unsigned integers is written out.
--
-- The only loop without an obvious bound, in hzl_NonZeroTrng, runs on 22 rounds of fuel. It gives up
-- after more than 20 repetitions, so it never needs more. All other loops recurse
-- over the configured amount of Clients or Groups.
--
-- Server/Invariant and Server/Preservation hold the invariant of the Group states by operation,
-- Server/Safety and Server/Traces that of the API and its sequences of calls; Server/Init/Checks and
-- Server/Init/Sessions are about the initialisation, Server/Request/Authentic about Requests,
-- Server/Group/Counters about counter nonces and Server/Renewal/Phases about the renewal;
-- Server/Slots is an abstract machine of the two keys of a Group and their counter nonces, over the
-- same clock and random generator as the Server, to which Server/Slots/Groups, Operations and
-- Refinement relate its functions; Client/Groups is about the search for a Group,
-- Client/Handshake and Client/Rejection about what a Client accepts and refuses, Client/Nonce about
-- the counter nonce in what it sends.
--
-- In Loading a file is the list of the bytes that are still to be read, and hzl_ServerNew and
-- hzl_ClientNew are a chain of functions, one from each allocation to the next. The heap is the list
-- of its blocks, each with its size; every call of calloc may fail, and what is freed is kept with the
-- number of bytes that were cleared before. Which blocks the fields of a context point to is kept
-- beside the context. The padding bytes of a structure are read and left out. Loading/Server/Release
-- and Loading/Client/Release are about the heap, RoundTrip about files in the right format, Truncated
-- and Consumed about others. The loads of hzl_ClientNew.c are copies of those of hzl_ServerNew.c and
-- have one model.
--
-- Not modelled: the calls of the operating system (Os takes what they give), and the submodules under
-- external/, whose code is not in the repository. A NULL function pointer of the tables of header
-- functions, which only an unchecked header type gives, writes nothing in the model; C leaves it
-- undefined. The nonce of a Request is read as on a little-endian machine.
pub mod Base
pub mod Err
pub mod Platform
pub mod Payload
pub mod Timing
pub mod Utils
pub mod Message
pub mod Server
pub mod Client
pub mod Loading
pub mod Os
pub mod Interop
pub mod Tests
pub mod Endian
pub mod Header
