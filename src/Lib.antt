-- ===== src/Lib.antt =====
-- Verification of the core of veska: the daemon that parses a repository on every save, stages the
-- result, promotes it to a store and answers questions about the graph of symbols.
--
-- How the parts interact. A save goes through the ingester, which waits at the gate, parses and
-- stages under the generation that it read. A promotion snapshots the staging area, hands a batch
-- to the store, removes the files that it took and runs the checks. The store enqueues rows of work,
-- which a poller takes one at a time and hands to a handler of their kind. The blast radius walks
-- the promoted edges from seeds, which may come from the staging area. At its
-- start the daemon reconciles the branch of each repository, which clears the area of the branch
-- before and bumps the generation of the gate, and replays the commits that it missed as saves and
-- promotions, or scans the working tree anew, which the scan tracker reports. The diff gate stages a
-- candidate change in an area of its own, bounds it by the blast radius of the finding that it
-- claims to resolve, and asks the decision of revalidation whether it does; further gates judge new
-- clones, secrets, exported symbols and untested nodes. The structural checks make findings of the
-- promoted graph, the clusters of duplicates group its symbols, and the auto linker proposes edges
-- between similar ones. The breaker of the
-- daemon counts its restarts, and the log of the daemon rotates.
--
-- Files and code (paths below internal/):
--   Domain       core/domain: actor.go, node.go, edge.go, finding.go, parse_result.go, task.go,
--                graph.go, suppression.go. A functional option is a constructor, and `apply_option`
--                is what it does. NewActor, NewNode, NewEdge, NewFinding, Close, NewTask, and Add,
--                Active and SetActive of TaskSet keep their names. Tasks are shared by pointer, so TaskSet works on an
--                explicit store.
--   Staging      application/staging/area.go and gate.go. The area is a map from keys to entries,
--                and each method one function on it. Staging/Gate/Interleaving cuts a save and a
--                branch switch into their atomic actions.
--   Promotion    application/promoter.go and promotion_store.go: Promote.
--   Ingest       application/ingester.go and findingemitter.go: save, DeleteFile, and the findings.
--   Queue        infrastructure/sqlite/queue/queue.go, core/ports/queue.go and, in Queue/Drain,
--                platform/pollloop/pollloop.go. The table is a list of rows in ascending number.
--   Blast        application/blastradius/blastradius.go: the walk of Of, and in Blast/Query its
--                hydration, DiffOf and DirtyOf.
--   DiffGate     application/diffgate: guard.go and changednodes.go in Guard, verify.go in Verify,
--                gate.go in Gate; clonegate.go in Clones, securitygate.go in Security, apigate.go in
--                Exported, coveragegate.go in Untested.
--   Revalidate   application/revalidate/decide.go and core/ports/revalidate.go: Decide; in
--                Revalidate/Sweep, handler.go: Handle.
--   VecCodec     application/veccodec/veccodec.go: both directions on lists of bytes.
--   LogRotate    platform/logrotate/writer.go: the writer with the files beside it, each system call
--                with its failure. The number of copies is not negative.
--   ChangedSymbols  application/changedsymbols/changedsymbols.go: Diff and the classes of a file.
--   ScanTracker  application/scan_tracker.go: the scans in flight.
--   BranchReconcile  application/branchreconcile.go: Reconcile on the gate, the area and a store.
--   Resync       application/resync.go: Run, resyncRepo and replayCommit, on a log of what they save
--                and promote; Resync/Replay is about missed commits, Resync/Gone about deleted files.
--   ColdScan     application/coldscan.go: runColdScan on a tree of entries; the calls of save and
--                promote are recorded in a log, and the tracker is that of ScanTracker.
--   Duplicates   application/duplicates: groupByHash and the types of duplicates.go, the disjoint sets in
--                Duplicates/UnionFind, the similarity clusters in Duplicates/Near, and clusters.go in
--                Duplicates/Tiers. The map of parents is explicit, and a find returns it.
--   PathFilter   application/pathfilter/pathfilter.go.
--   Coverage     application/coverage/reversemap.go: TestsCoveringAny.
--   Checks       application/checks: the loop that deadcode.go, untested.go and contractdrift.go share,
--                and each of them in a module of its own.
--   Autolink     application/autolink/autolink.go: Candidates.
--   Governor     application/embedder/governor.go: the slots and the pause, as a step relation.
--   Quota        application/review/quota.go: the caps on the tokens of reviews.
--   CrossRepo    application/crossrepo/resolver.go: a symbol in every repository.
--   Tokenize     platform/tokenize/symbol.go on lists of runes: splitCamel with its indices, in
--                Tokenize/Split where it cuts, flattenNonAlnum and Symbol.
--   Backup       infrastructure/backup/prune.go: the retention sweep.
--   CrashLoop    platform/crashloop/breaker.go: Record on the three files of the home directory.
--   Common       maps, lists, tests and results that the parts share.
--   Tests        tests and concrete runs.
--
-- Bounds and fuel. The generation of the gate is a uint64 and wraps at 2^64. The walk recurses on the
-- hops that are left, which Go bounds by MaxDepth. The drain of the queue is a loop without a bound
-- in Go; it takes fuel here, and more fuel than attempts left in the ready rows is enough, since each
-- pass uses up an attempt or, with the clock standing still, puts its row out of reach. The fixpoint
-- of the guard takes as fuel one more pass than there are new nodes, since each pass but the last
-- admits one. The finds of the union of n edges take n + 1 as fuel, since each union makes no climb
-- longer than by one link. The walk of the coverage map takes its bound on nodes as fuel, since each
-- round with a further one visits a new node.
--
-- Parameters: the parser, the store, the handlers, the edge reader, the node lookup, the callers and
-- hashes of the base, the radius service of the guard, git, the working tree, the failures of the
-- system, the clock, and the digests of identifiers and content. The order in which Go visits a map is the order of the
-- association list. Logging, tracing and context cancellation are left out.
--
-- Not modelled: the parser, the SQL of the stores other than the queue, embedding and vectors, the
-- command line, the protocol servers and the configuration, which are input and output or calls of
-- libraries; and the cycle gate, the search, the scans of secrets and dependencies, and the
-- handler of the auto linker. The checks of Go for a nil graph, finding or dependency are left out: these arguments are given.
pub mod Common
pub mod Domain
pub mod Staging
pub mod Promotion
pub mod Ingest
pub mod Queue
pub mod Blast
pub mod Revalidate
pub mod VecCodec
pub mod LogRotate
pub mod DiffGate
pub mod ChangedSymbols
pub mod ScanTracker
pub mod Backup
pub mod BranchReconcile
pub mod Resync
pub mod ColdScan
pub mod CrashLoop
pub mod Duplicates
pub mod PathFilter
pub mod Coverage
pub mod Checks
pub mod Autolink
pub mod Governor
pub mod Tokenize
pub mod Quota
pub mod CrossRepo
pub mod Tests
