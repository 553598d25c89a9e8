-- ===== src/Lib.antt =====
-- miu-cr reviews a change with a language model and posts what survives deterministic checks. This
-- library models the parts that decide, and leaves the parts that only call others as parameters.
--
-- The parts, in the order in which a review passes through them:
--
--   Invocation  internal/engine/validate.go: the contract of one invocation.
--   Finding     internal/engine/finding.go and internal/engine/diff/diff.go: the values passed on.
--   Hunk        internal/engine/diff/hunk.go: ParseHunks (parse_hunks). Hunk/Render prints hunks in
--               the form of git, but with every count written (git leaves out a count of 1), as the
--               description that the parser is measured against.
--   Anchor      internal/engine/anchor/resolver.go: ResolveLineNumbers (resolve_line_numbers)
--               places each finding at the lines that its quote has in the diff, then in the file.
--   DiffText    internal/engine/diff/parser.go: ParseDiffText (parse_diff_text) splits the output of
--               git into the diffs of files.
--   Filter      internal/engine/filter.go: SelectFiles (select_files).
--   Dedupe      internal/engine/engine.go: dropDrift and dedupe.
--   Recovery    internal/engine/relocate.go: recoverAnchors (recover_anchors) asks the agent again
--               for the quote of a finding that did not anchor, and anchors the answer.
--   Severity    internal/engine/engine.go: severityRank, MaxSeverity, MaxSeverityRank, GateFailed.
--   Suggestion  internal/github/suggest.go: ClassifyReplacement (classify_replacement) decides which
--               patches become suggestions, rebasePatchIndentation moves them to their line.
--   Repair      internal/engine/repair.go: repairPatches (repair_patches) asks the agent again for a
--               patch that was refused, with the classifier of Suggestion.
--   ProviderRetry  internal/engine/agent/provider_retry.go: retryProviderCall around each call of a
--               model provider, with its policy and its backoff.
--   Subagents   internal/engine/subagents.go: planSubagents (plan_subagents) splits the selected files,
--               reviewPasses (review_passes) reviews the plans and merges what they return.
--   Review      internal/engine/engine.go: Review (review), the order of the parts above, from the
--               diffs of git to the reported findings.
--   Shift       internal/github/stable_line.go: shiftLine (shift_line) moves a line over hunks.
--   Ledger      internal/github/ledger.go and internal/github/publish.go: MergeLedger
--               (merge_ledger), capLedger (cap_ledger) and the fingerprints.
--   Stable      internal/github/stable.go, internal/github/stable_line.go and
--               internal/github/stable_anchor.go: rows and findings over follow-up commits.
--   OffDiff     internal/github/offdiff.go: where a finding outside the changed lines is answered.
--   Clearance   internal/github/stable.go and internal/github/thread_resolution_sync.go: the ledger
--               after a review (merge_review_ledger) and what of it gates an approval.
--   Approval    internal/github/approve.go: resolveEvent (resolve_event), the readiness of the head
--               and ApproveResolvedLedger (approve_resolved_ledger).
--   Pool        internal/serve/worker.go: Submit, the workers and Drain, as a step relation.
--   Poller      internal/serve/poller.go, internal/serve/cursor.go and the allowlist of
--               internal/serve/server.go: ticks and ends of reviews as steps on the cursor.
--   PrFlight    internal/serve/pr_flight.go: the lock of a pull request, each critical section one
--               step; PrFlight/Refinement compares it with one lock for each key.
--   ReplyRetry  internal/serve/reply_retry.go: the comments that are left for later.
--   Budget      internal/serve/reply_budget.go: AllowReplySpend (allow_reply_spend).
--   Quota       internal/quota/quota.go: Check (check) and Record (record_usage) of the reviews of a
--               provider, which run at once and share its counters.
--   Base        shared names, and lists, texts, sorting and decimals over the native numbers.
--   Examples    tests, and instances of the theorems.
--
-- Conventions. A Go string that is inspected is a Text, the list of its code points, for valid UTF-8;
-- one that is only compared with constants is a String. Line numbers, counts and ranks are natural
-- numbers: the code gives them no negative values that it tells apart from 0, and a difference that
-- the code computes is written out where it can fall below 0. Numbers of a hunk header are capped
-- at the largest int, as strconv.Atoi does; the backoff of a provider and the poll interval wrap
-- around at 64 bits, as the code's durations do. The machine's ints are otherwise not bounded.
-- A Go map is a function or an association list, a nil value or an error is `none`. Loops are
-- structural recursions, so they need no fuel; the loop over the fetches of an approval has the
-- three attempts of the code, and the loop of provider calls has fuel for one round more than the
-- retries of its policy, which ProviderRetry/Total shows to be enough. The pool's
-- steps may happen in any order, which stands for every schedule of its goroutines; its lock makes
-- each step atomic, as in the code. A call of ReplyRetry is one step, though the code has no lock
-- around its sweep, and so is the Check of a quota, which in the code reads the clock and then the
-- counter; the sums of a quota are not bounded.
--
-- Parameters, which stand for code that is not here: the agent's answers, SHA-256, the lower case of
-- a text, the glob matcher, strconv.Unquote, time.ParseDuration, the random numbers, the clock, the
-- blobs that git shows, and the answers of the GitHub API (pages of check runs, statuses, reviews and
-- fetches, notifications and pull requests). TryLock fails on a locked mutex, and may
-- fail on any other.
-- Not modelled: prompts, markdown and JSON, the file system, git, HTTP, SQL and the command line.
pub mod Base
pub mod Severity
pub mod Invocation
pub mod Finding
pub mod Hunk
pub mod DiffText
pub mod Anchor
pub mod Dedupe
pub mod Recovery
pub mod Suggestion
pub mod Repair
pub mod ProviderRetry
pub mod Poller
pub mod ReplyRetry
pub mod Filter
pub mod Subagents
pub mod Review
pub mod Pool
pub mod PrFlight
pub mod Approval
pub mod Shift
pub mod Ledger
pub mod Stable
pub mod OffDiff
pub mod Clearance
pub mod Budget
pub mod Quota
pub mod Examples
