-- ===== src/Lib.antt =====
-- Semdev drives a change of a repository from an issue to a proved artifact: an admission gate lets an
-- event in, a run writes its facts to a graph through owned contracts, a coding agent works on tasks
-- projected from an approved change, checks of the repository gate its work, and a cold clean-room proof
-- decides on the artifact. This library models the code of those decisions and proves what they promise.
--
-- Base         lists, texts, integers and results that the parts share. A text is a list of bytes.
-- Runner       the clean-room runner contract, internal/cleanroom/runner.go, as a record of operations on
--              a world; what Docker does is a parameter.
-- Harness      the run manifest of internal/harness and how it is resolved (manifest.go,
--              customizations.go); the JSON decoder is a parameter.
-- Findings     the findings of internal/floors/floors.go and AnyRejected.
-- Secrets      the scrubber of internal/secrets/scrub.go.
-- Admission    the gate of internal/intake/admission/admission.go; the permission checker and the case
--              folding are parameters.
-- Conversation the change-approval gate of internal/conversationchannel: the apply lane of a classified
--              intent (apply.go: Apply), the approval adapter of exact commands and of the bridge to the
--              classifier (approval.go: Approval, Commands), the poller (poller.go: Poller), and the choice
--              of a thread's run (internal/intake/admission/resolver.go: Resolver, at most 16 pages as in the
--              source). The forge, the bus and the graph are parameters; what a lane
--              leaves behind is a log that the world is observed by.
-- Openspec     the OpenSpec format, internal/openspec: the documents (model.go: Model), the lines that the
--              parsers tell apart (Lines), the parser and the renderer of capability specs (parse.go,
--              render.go: Spec) and of tasks (Tasks). A renderer puts what it writes in front of the rest.
-- Devtask      the projection of authored tasks, internal/devtask/project.go.
-- Standards    internal/standards: the lint of commands (gates.go: Gates, Scan), declarations and the
--              parse of the file (standards.go: Decl, Parse; the YAML decoder is a parameter), snapshots
--              (snapshot.go) and the lane that runs the checks (checks.go: Lane).
-- Cleanroom    internal/coldproof and internal/verify with internal/cleanroom/classify.go: the evidence of
--              a cold run (Coldproof), the verdict (Verify), the baseline and the artifact proof (Baseline).
-- Runspace     the registry of warm sandboxes of internal/runspace/sandboxes.go, over the Runner, the path
--              guard of internal/pathguard/pathguard.go (Pathguard), and the patcher of
--              internal/runspace/patcher.go with the targets of a diff (Patcher, Diffs); the git
--              commands and the writes of the patch file are a log that the world is observed by.
-- Station      the dispatch of a deterministic station, internal/station/station.go: the handler with its
--              retries and the fact that parks a run.
-- Graphown     internal/graphown: kinds of failure, the retry loop, contracts and the writer.
-- Tests        runs at concrete inputs.
--
-- The parts meet as in the code: the lane of Standards and the proofs of Cleanroom call the Runner, the
-- proofs take a Harness manifest and scrub with Secrets, and the lanes of Conversation call the gate of
-- Admission.
--
-- Stateful code takes the world and returns it; an error is a value. Loops are structural. The retry loop
-- is on fuel, four attempts, which is the largest bound of its policy, and is proved to end within it.
-- Integers of Go's `int` are unbounded, as the values that occur are small. Contexts and deadlines are
-- part of the world.
--
-- Not modelled: the clients of GitHub, git, Docker and the message bus, the wiring of the process, and the
-- agent's tools, which decode arguments and call the parts above.
pub mod Base
pub mod Findings
pub mod Runner
pub mod Harness
pub mod Secrets
pub mod Admission
pub mod Conversation
pub mod Openspec
pub mod Devtask
pub mod Standards
pub mod Cleanroom
pub mod Runspace
pub mod Station
pub mod Graphown
pub mod Tests
