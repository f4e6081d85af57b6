-- ===== src/Lib.antt =====
-- The autonomous coding pipeline of src/darkfactory: a request is planned, built, verified,
-- repaired, reviewed and merged by agents, under a Temporal workflow with human gates. The
-- workflow keeps a pipeline state, calls activities that return deltas of it, and merges them by
-- the reducers of the channels; the build and the verify activity are graphs of nodes over the
-- same state, and hooks guard every tool call of an agent.
--
-- Base is shared notation: tests on native numbers, lists, equality as an instance, dictionaries
-- as association lists, and text as lists of code points.
--
-- State is src/darkfactory/state.py. Records has its records and literals, Channels the keys of
-- the state with the type of each, and a state maps a key to its value or to none, which stands
-- for a missing key and for None. A delta maps a key to none (left out) or to the new value or
-- None. Reducers and Merge have the reducers, merge and the initial states; BoundedLog,
-- CommentMerge and PackageMerge prove what three of the reducers keep.
--
-- Flow is DarkFactoryWorkflow of src/darkfactory/runtime/workflow.py. Machine has the object's
-- fields, the service that replies to activities and delivers updates at each turn, and the monad
-- of the coroutine; Signals the update handlers; Stages the calls; Feedback, Targets, Budget and
-- Stale the pure helpers; Planning, Repair, Merging and Run the body of run. The other children
-- prove: Logic and Keeps are rules for postconditions and invariants of the coroutine, and the
-- modules named after a subject hold its facts.
--
-- Build is the build graph: TopoSort and Supervisor are
-- src/darkfactory/agents/builder_supervisor.py, Worker the worker nodes of
-- src/darkfactory/stages/build.py with reconcile_paths of src/darkfactory/tools/git_diff.py, and
-- Diff the rest of that file, with DiffFacts and NameStatus on what it returns. TopoOrder and
-- Sorted are about topo_sort, Dispatch and Turns about the supervisor and the workers. Verify is
-- src/darkfactory/stages/verify.py: Plan finds a plan and Steps runs it, with PlanFacts, and
-- Summary and Verdict the verdict. Hooks are the callbacks of src/darkfactory/hooks; of
-- path_guard.py, Paths normalises a path, PathGuard and Dependencies decide, and PathFacts,
-- PathBackslash, PathSplit, PathStable and PathRefusals prove what that does. Approval is
-- src/darkfactory/runtime/approval.py: Commands parses a comment, Access checks its author, and
-- Parsing, Signals and AccessFacts prove what they do.
--
-- Issue is DarkFactoryIssueWorkflow of src/darkfactory/runtime/issue_workflow.py. Machine has the
-- object's fields, the service and the monad; Comments is
-- src/darkfactory/runtime/issue_comments.py, Markers the markers of
-- src/darkfactory/runtime/phase_comment.py, Labels the edit of swap_state_label_activity in
-- src/darkfactory/runtime/activities.py; Signals the update handlers and the query, Steps the
-- activities, the waits and the private methods, and Triage, Design, Building, Review and Run the
-- methods of the phases. Life is the abstract machine that a run refines: the places of an issue
-- with the label of each, and the activities and swaps allowed there. Logic, Rules, Moves and
-- Gates are rules for the coroutine against that machine, the modules that end in Life apply them
-- to the phases, and the others hold the facts that they are named after.
--
-- Unbounded loops take fuel: the rounds of planning and of the merge gate and the turns that a
-- gate waits are chosen by the people at the gates, so their fuel is arbitrary and a run that has
-- not ended is a result of its own; the repair loop, topo_sort and the triage of an issue are
-- proved to end, with the fuel that their theorems name. The numbers are natural, as the
-- program's counts are, and exit codes are integers; nothing of it wraps.
--
-- What an agent answers, what Temporal, git and the shell do, what the report files say, which
-- characters a regular expression takes as part of a word, and shlex.split are parameters. Not
-- modelled: the wording of denials, cancellation and replay of a workflow, and the parts of the
-- program that are listed as such in the manifest.
pub mod Base
pub mod State
pub mod Flow
pub mod Hooks
pub mod Issue
pub mod Build
pub mod Verify
pub mod Approval
mod Tests
