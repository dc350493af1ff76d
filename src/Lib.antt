-- ===== src/Lib.antt =====
-- The TestPaper backend: sign-in and tokens (testpaper_backend/services/auth_sessions.py, security.py),
-- the synchronisation of personal accounts (testpaper_backend/services/sync_*), the shared drafts of
-- papers (testpaper_backend/services/drafts.py), the generation of papers
-- (testpaper_backend/services/paper_generation.py) and the limits of calls
-- (testpaper_backend/services/rate_limit.py), modelled as functions and as units of work on stores of
-- tables, and what makes them correct.
--
-- Parts. A device pushes a batch of mutations (sync_push), which are applied to entities, their
-- versions and a change log, or recorded as conflicts (sync_conflicts); other devices pull the change
-- log or a snapshot of it with signed cursors (sync_read); compaction (sync_compaction) deletes changes
-- that newer ones replace and moves a stream's horizon; a tombstone of an attachment dates the
-- retention of its references (attachment_maintenance). Shared drafts stand apart: their operations
-- are guarded by access roles and by the revision that an update is based on.
--
-- Every request carries a token: auth_sessions issues it, rotates it and revokes it, and security checks
-- it. The generation of a paper shares its marks out and evolves its selection of questions; the rate
-- limit counts the calls of a client before a route calls a service. These two share no state with the
-- rest.
--
-- Files.
--   Base: shared tests, lists, sorting, membership, units of work with errors, JSON payloads.
--   Accounts: UserRole, Permission and ROLE_PERMISSIONS (schemas/auth.py), has_permission (security.py).
--   Auth: Auth/Rows is the tables of tokens, accounts and audit events; Auth/Browser and Auth/Native are
--     the sessions of browsers and the token pairs of devices, Auth/Checks the checks of security.py,
--     Auth/Devices the list and the revocation of devices. Auth/Steps is the relation of all of these
--     steps; Native/Reuse, Native/Families, Checks/Live, Devices/Summary, Steps/Shrinking and
--     Steps/Pairs are about reuse, families, what a token authenticates, the list, and the relation.
--   Sync/Types: the requests and results of schemas/sync.py, and the errors the services raise.
--   Sync/Rows, Sync/Tables: the tables of db.py, and the queries and writes of the services on them.
--   Sync/Attachments: apply_attachment_reference_lifecycle.
--   Sync/Conflicts: create_conflict and classify_sync_conflict.
--   Sync/Apply: _apply_mutation; Apply/Outcomes and Apply/Rest are about its results and writes.
--   Sync/Push: push_mutations, with the loop over the batch and its handlers; its child modules are
--     about the order of the answers, the dependencies, the replay of a batch and its faults.
--   Sync/Frame: the parts of the store that recording a version, or a conflict, works on.
--   Sync/Compaction: compact_sync_stream; Compaction/Kept is about the rows that stay,
--     Compaction/Outcome about its runs.
--   Sync/Cursors: the signed cursors of sync_read; Cursors/RoundTrip is about
--     reading them back, Cursors/Audience about their checks; Cursors/Sample is a concrete codec.
--   Sync/Read: _stream, _device_cursor, pull_changes and acknowledge_cursor; Read/Devices, Read/Pages
--     and Read/Ack are about the rows of devices, the paging and the acknowledgement.
--   Sync/Recovery: restore_version and resolve_conflict: Versions is _append_version, Restoring the
--     restoration, Plans the actions of a resolution, Resolving the resolution; Replays is about repeated
--     operations, History about what a restoration and an undo write; Listing is get_conflict and the
--     lists of versions and resolutions, with Listing/Complete about the first list.
--   Drafts: the roles and operations of drafts, on the rows of Drafts/Rows; Drafts/State is the
--     redaction of answers. Drafts/Access is about who is answered and what is shown, Drafts/Edits
--     and Drafts/Updates about updates.
--   Generation: Marks is the loop that distribute_marks and normalize_targets share, Shares these two,
--     Targets the targets of types and difficulties, Genes the crossover and the mutation of individuals,
--     Evolve the loop over the generations, Paper the generation of a paper.
--     Marks/Balance and Shares/Exact are about the loop and the sums, Genes/Crossed, Genes/Mutated and
--     Evolve/Run about individuals, Paper/Exact about generated papers.
--   Limits/RateLimit: check_rate_limit and its local fallback, with Bounded, Window and Refined about its
--     table, its windows, and a specification without a bound.
--   Sync/Samples, and the modules named Tests: concrete stores and runs.
--
-- How the state is modelled. A service is a function from a store to a result or an error beside the
-- store it leaves; an error that leaves the session rolls the store back. Identifiers, hashes, device
-- names and scopes are only compared by the code and are numbers here, with 0 for the empty text; times
-- are numbers of seconds. One counter gives rows their keys, so that later rows have greater ones. The
-- clock is read once per request. What is not in the repository's own code is a field of `Env`: the
-- clock, fresh UUIDs, SHA-256 over canonical JSON, sizes of the encoded requests, and what other
-- sessions commit just before a batch row is inserted, or between the count and the deletion of a
-- compaction; or of `Codec`: JSON, base64 and HMAC of cursors,
-- whose documented behaviour is `CodecLaws`; or of `AuthEnv`: fresh secrets, their digests, the password
-- hashes, and the configured lifetimes; or of `FloatOps`, `WeightOps`, `Draws` and `ChildDraws`: the arithmetic of
-- floats and the draws of random numbers, of which nothing is assumed but what a theorem names.
--
-- Bounds and fuel. The loop of distribute_marks has the bound on its turns that the code gives it; that
-- of normalize_targets has none in the code, and takes a number of turns here, of which a round over the
-- keys for each unit is enough. The search for a replacement in mutate_individual takes a number of
-- draws, which is enough where the draws go through the candidates. Every other loop is recursion on a
-- list, or on the number of its turns.
--
-- Not modelled: isolation of concurrent sessions beyond these points (row locks of the database make the
-- writers of one entity wait), races for a user name, the paged snapshot of sync_read, the creation, the
-- listing and some changes of drafts, the candidates and the fitness of a generated paper, the transfers
-- of attachments, question banks and profiles, uniqueness of fresh UUIDs, the elapsed time of a
-- compaction, the counter that Redis keeps, the messages of the errors; routes, configuration, logging,
-- documents, workers, migrations and scripts.
pub mod Base
pub mod Accounts
pub mod Auth
pub mod Sync
pub mod Drafts
pub mod Generation
pub mod Limits
