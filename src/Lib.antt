-- ===== src/Lib.antt =====
-- The agent of LibreSCRS: the process that owns the card readers and serves clients over D-Bus or a
-- Unix socket. The library follows the core in src/ and include/LibreSCRS/Agent/.
--
-- Parts, and how they meet:
--   Common        Boolean tests, lists over the native numbers, and `std::map` as an association list
--                 in the order of its keys (Common/Map, Common/Unique).
--   Identity      include/LibreSCRS/Agent/Identity.h: caller tokens and object ids, the keys of all
--                 the tables below.
--   Pkcs11/Lease  src/pkcs11/LeaseManager.cpp: who is logged in to which card. Each method is a function
--                 on the map of leases; the clock is the argument `now`, as in the source.
--   Pkcs11/Broker src/pkcs11/Pkcs11Broker.cpp: the gates in front of every key operation. A request and
--                 the completion of the seam it starts are two steps, since others run in between. What
--                 the host answers (authority, card lookup, seam) is an argument of the step.
--   Pkcs11/Objects, Pkcs11/DerivedKeys  src/pkcs11/ObjectModel.cpp and DerivedKeys.cpp: the slots, objects
--                 and mechanisms that the readers give, and the session keys; Pkcs11/Attribute has the
--                 attributes and answers of PKCS#11.
--   Pkcs11/Session  src/pkcs11/SessionState.cpp: the module's sessions, logins, derived keys and handles;
--                 Session/Model the refresh of the slots and the search.
--   Pkcs11/Module src/pkcs11/Module.cpp: the C_* functions over that state. A call that asks the agent
--                 without the lock is a step up to the question (`begin_sign`) and one from the answer
--                 on (`finish_sign`). Module/Process has the library, the guards of the calls that are
--                 at the agent, and the refreshes with their tickets.
--   Pkcs11/Ec, Pkcs11/Der  src/pkcs11/EcEncoding.cpp, the curves of include/LibreSCRS/Agent/KeyType.h and
--                 src/util/DerLength.h: points of a curve as octet strings, and elements of DER.
--   Operations/Operation  src/operations/OperationBase.cpp: an operation with its phases, its watchdog and
--                 the call that publishes its end, as the steps of the threads that share it.
--   Operations/Tracking, Operations/Manager  src/operations/OperationManager.cpp: the tables of ids and of
--                 senders, the queue and the worker of each reader, the removal of a reader.
--   Operations/RateLimiter  src/operations/RateLimiter.cpp: the throttle on prompts, which the signing
--                 operations and the crypto flow ask before they prompt.
--   Wire/Frame    src/wire/Framing.cpp: the frame header and `encodeFrame`.
--   Wire/Reassembler  src/wire/FrameReassembler.cpp: frames cut out of a byte stream with descriptors
--                 beside it. The socket is a script of what each `recvmsg` gave.
--   Wire/SyncError, Value  src/wire/SyncError.cpp, src/value/SyncErrorTaxonomy.cpp and ErrorTaxonomy.cpp:
--                 the names and codes under which failures go out.
--   Cache/Credential  src/cache/CredentialCache.cpp and requestCredential in its header: the CAN or MRZ of
--                 a card and the requests for them. A request is cut at the prompt; the reading of an
--                 MRZ payload is a parameter.
--   Cache/CardRead, Cache/Snapshot  src/cache/CardReadCache.cpp and CredentialSnapshotCache.cpp: what was
--                 read of a card, with an idle window, and its list of credentials, with a version.
--   Operations/PromptSerializer  src/operations/PromptSerializer.cpp: the queue for the dialogs of
--                 each card. A waiting thread is its ticket, and `acquire` is cut where it waits.
--   Operations/CardSession  src/operations/CardSessionHolder.cpp: the one connection of a reader, in use or
--                 parked, with a log of what is done to it.
--
-- State is passed explicitly: an operation takes the state and returns the new state with its answer.
-- The mutex of a component makes its methods atomic, so a history of calls in the order in which they
-- take the mutex stands for every interleaving. A theorem about `after` speaks of all histories.
--
-- Numbers: times are seconds or ticks of a steady clock as natural numbers, so no clock value is
-- negative; a difference `now - t >= d` of the source, which is signed, is written `t + d <= now`. Bytes
-- and words are natural numbers with their wrap-around written out. Descriptors are numbers that stand
-- for the open file.
--
-- Fuel: the extraction loop has as many rounds as the buffer has bytes, and each round takes eight bytes
-- at least. Everything else is structural recursion.
--
-- Not modelled: the log; the CBOR codec and the message classes; the LibreMiddleware calls
-- behind the seams; the flows of the single card operations; the presence of readers; the configuration
-- and the trust import; the Qt client; of the PKCS#11 module its information records, the attributes of
-- a whole template at once and the client of the socket.
pub mod Common
pub mod Identity
pub mod Pkcs11
pub mod Operations
pub mod Wire
pub mod Value
pub mod Cache
