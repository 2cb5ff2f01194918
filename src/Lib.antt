-- ===== src/Lib.antt =====
-- zsh-pro keeps zsh configuration in versioned profiles and shares live shell state between
-- terminals. This library models the parts of its core that decide what happens.
--
-- Live.* is core/model/worktree.go: identities, values, snapshots, their checks, and the
--   normalisation that keeps the last occurrence of each identity.
-- Worktree.* is core/worktree: Order and Diff are DiffSnapshot (diff.go), Apply is
--   applyStateChanges and equalLiveStates (state.go), Overlay is ApplyOverlay, BuildProjection and
--   CategorizeDiff (diff.go), History is the event sequence and CompactStateHistory, and Transition
--   is IsLegalShellTransition (both state.go), which only tests of the source call. Registry is
--   registry.go. State is the stored state with ValidateState (state.go): Credential the
--   capabilities of shells (core/model/worktree.go), Shell the records of shells, Receipts the
--   receipts of operations, Validate the rest.
-- Worktree.Service is service.go: Digest fingerprints and tokens, Receipts receiptFor and
--   appendReceipt, Admission what the registry lets through, Transaction the store's
--   WithTransaction (atomic_unix.go), then Attach, Publish, Pull (PreparePull), Resolve
--   (ResolveShared) and Acknowledge, and Workflow with Commit, Branches (Branches, Branch, Checkout,
--   ResetHard, SetAutoApplyDefault), Status (WorkflowStatus, Status, Diff) and Materialize. Calls
--   is the service as a whole: its operations as steps of the stored state, in any order.
-- Model.* is the data of core/model/block.go, profile.go and manifest.go: blocks, entries, what of
--   them is managed and representable, and manifests.
-- Activate.* is core/activate: Plan is plan.go, Patch is BuildLivePatch and Manifest is Diff (both
--   diff.go), and Build is builder.go: Lists the token streams of PATH and FPATH, Legacy
--   their historical form, Entries Build, Projection effectiveProjection, Effective
--   BuildEffective.
-- Ir.* is core/ir: routing, Build and Regenerate (route.go, build.go, regen.go). Analyze.* is
--   core/analyze: Analyze has duplicateNames and duplicatePaths, Shadows has shadows (all
--   reconciler.go, with core/model/issue.go and analysis.go), and Report Analyze (analyzer.go).
-- Data.* holds what Go's library and the repeated loops are modelled by: byte strings, maps,
--   sorting, last occurrences, slots with an index, and slices whose elements move to the end.
-- Tests.* holds runs at concrete inputs.
--
-- A function of the source has the same name here, in snake case. An error result is the `err` of a
-- `Result`, with one constructor of `Error` for each message; the values quoted in messages are
-- left out. Strings are lists of bytes. A pointer, or a slice where nil matters, is an Option, and
-- values are copied in depth, so that aliasing does not arise. Go maps are association lists; where
-- the source ranges over one, it sorts what it collects or the order does not matter. `sort.Slice`
-- is an insertion sort, and the sorted order of distinct identities is unique; so is that of the
-- issues of a report, which differ in kind or name. A uint64 counter is checked before each
-- addition, as in the source. All loops recur on their lists, so no fuel is needed.
--
-- An operation of the service takes the stored state to the next one with its result, or to an
-- error, and then the stored state stays. SHA-256, the JSON encoding of what is fingerprinted, the
-- size of an encoded state and reflect.DeepEqual are parameters, and so is the Git repository, with
-- a state of its own. Each operation that needs the registry seeds it from the state first, so the
-- registry that it leaves is not returned. The transaction stores what ValidateState accepts and
-- what fits the size; its locks, files and deadlines can fail as well, and are left out. Whether
-- the marker of a recovered write is pending when a call has the lock is an argument of the call:
-- then the recovered error is noted in every shell's record, before the body and behind it. The
-- marker itself is a file that a failing forensic log leaves and that the next transaction clears.
--
-- The classifier that Build asks, the regenerator of lines and the provider that Analyze calls are
-- parameters. The policy that tells live secrets is a parameter of the registry. A registry is not
-- nil, and a number stands for its address.
--
-- Not modelled: the file protocol of the store, git, the keychain, the parser over the mvdan/sh
-- syntax tree, the text that is emitted for zsh, and JSON encoding.
pub mod Prelude
pub mod Data
pub mod Live
pub mod Model
pub mod Worktree
pub mod Activate
pub mod Ir
pub mod Analyze
mod Tests
