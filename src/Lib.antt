-- ===== src/Lib.antt =====
-- Verification of grandpa-bob: models of the program's own logic, and theorems about them.
--
-- grandpa-bob runs its agent in a browser tab. A workspace has a replica in every tab and on every
-- paired desktop, and a sync engine keeps the replicas alike. A browser and a desktop are paired
-- through a mailbox with a code that is used once.
--
-- Parts, and the files that model them:
--
-- - Base: JavaScript strings (lists of UTF-16 code units), `Map` and plain objects with string keys
--   (entries in insertion order), values of `JSON.parse`, and lemmas on lists and tests.
-- - Sync (web/src/sync). Sync/Journal is journal.ts: the operations of one replica under Lamport
--   stamps; Sync/Journal/Disk is its file. Sync/Hashmap is hashmap.ts: what never syncs, and the map
--   of a workspace. Sync/Engine is engine.ts: the conflict rule, the list of pulls, the pull loop, the
--   answer to a file request; Sync/Engine/Push its branch for pushed operations; a whole exchange
--   between two replicas stands in Sync/Engine/Converge. Sync/Chunking is chunking.ts: `chunkedPeer`,
--   whose `send` and message handler cut large envelopes and put them together again.
--   Sync/Control is control-peer.ts, which keeps control frames from the engine. Sync/Phrase is sas.ts,
--   the phrase that both sides of a pairing show.
-- - Bridge (src/bridge). Bridge/Mailbox is mailbox.ts: the class `Mailbox`, one function for each
--   method but `closeAll`; Bridge/Mailbox/Sound has the operations that change it as a step relation.
-- - Platform (web/src/platform). Platform/Paths is paths.ts, one function for each of its own;
--   Platform/Csv is csv.ts: the parser as a step on a record of its variables; Platform/Memory is
--   memory.ts, on the paths of Platform/Paths.
-- - Agent (web/src/agent). Agent/Watchdog is run-watchdog.ts, Agent/Retry is model-retry.ts,
--   Agent/Retention the trim by size of runlog-retention.ts, and Agent/Retention/Tiers its choice of the
--   sessions to compact and to delete by age; Agent/Checkpoint stopped-checkpoint.ts, Agent/Scope
--   tree-scope.ts.
-- - Profiles (web/src). Profiles/Catalog and Profiles/Store are profile-sync-model.ts: catalogs, links
--   of profiles of one name, consent, and what is stored of each paired device; Profiles/Rows has the rows
--   that the dialog shows of them. Profiles/Link is
--   sync/profile-link.ts, the class `ProfileLink`, one function for each method; Profiles/Link/Run has
--   everything that can happen to a link, and runs of it.
-- - Lease is web/src/host-lease.ts. Lease/Beats is its path over localStorage, all tabs at once, with
--   `heartbeatAcquire` in the parts between which other tabs run; Lease/Beats/Timed is its timed step
--   relation, whose premises bound what the timers do. Lease/Locks is the path over Web Locks.
--
-- The engine's envelopes travel over a peer of Sync/Chunking, between the two sides that the mailbox
-- has brought together; a profile link carries the engines of several profiles over one such peer, as
-- far as the consent of Profiles/Store allows. The parts share the types of Base and no state.
--
-- State is passed explicitly: an operation takes the old record and returns the new one. What the
-- program takes from outside is a parameter: SHA-256, `JSON.parse` and `JSON.stringify`, the clock,
-- random draws, a peer's answers, what a call of a model does, and the functions of JavaScript's library
-- in Base/Js. Loops are recursions on lists, and the retry loop is a recursion on the retries that are
-- left. On fuel run the batches of a delete, one for every item, which is enough since no batch is
-- empty; the search for a column's name, one for every name in use and one more; and the digits of a
-- number.
--
-- Not modelled: the user interface, the browser's storage, workers and network, the agent engine
-- (a package), and Node's servers; the states and counters that the sync engine shows on screen, and
-- failures of the file system; lines of a journal file whose stamp is no natural number or whose hash
-- or time is no text, which `load` refuses; the SQL of runlog-retention.ts; the loop of `takeOver` in host-lease.ts.
pub mod Agent
pub mod Base
pub mod Bridge
pub mod Lease
pub mod Platform
pub mod Profiles
pub mod Sync
