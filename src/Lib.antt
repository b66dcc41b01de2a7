-- ===== src/Lib.antt =====
-- Cynative gives a language model read-mostly access to the APIs of cloud and code-hosting
-- providers. Every HTTP request that the model makes passes a connector's gate before the
-- credential is attached (internal/auth): the gate classifies the request from its method and path
-- and holds what it found against a ceiling, a role or a ClusterRole. This library models the gates
-- and what they share, the two-stage interrupt of the terminal, the names and files of agents, the
-- rotation of the audit file, the verification of findings and the scheduling of a script's calls.
--
-- The parts and their files:
--   * Transport (internal/transport/transport.go, internal/auth/provider.go): one request, from the
--     model's arguments through the checks and the gates of the connector to the wire (`do`). Message
--     has net/http's requests, Providers the dispatch to the connectors, each a record of its
--     functions, and Request the steps of `do` with the events that use a credential.
--   * Authreq (internal/auth/authreq): `View`, the projection of a request that the gates read, the
--     readings of its path (`PathReadings`, `WireReadings`) and the dot-segment test. The
--     Google Cloud gate classifies the readings; GitHub and GitLab refuse dot segments.
--   * Authority (internal/auth/authority.go): the port that a connector is pinned to.
--   * Exposure (internal/auth/exposure): the levels none, read and write and the map of ceilings
--     that the GitHub and GitLab gates share.
--   * Github (internal/auth/github, internal/auth/github.go): `Table` and `Lookup` (the routing
--     table, its memoised matcher in Match and the choice of the most literal template in Lookup),
--     `Policy` (ceilings and the admission of a table), `Classifier` and `Gate` (`AuthorizeAction`).
--   * Gitlab (internal/auth/gitlab, internal/auth/gitlab.go): Table, Classifier and Gate, the same
--     three steps with one best template and the decoded path. Gate is `AuthorizeAction` from the
--     fetched table on.
--   * K8s (internal/auth/k8s): `Classify` in Classify, and the ClusterRole matcher and `Authorize`
--     in Policy.
--   * Azure (internal/auth/azure): `DeriveAction` in Path, Types and Classifier, over a catalog that
--     is a record of its two operations, and the role evaluator in Roles.
--   * Gcp (internal/auth/gcp): `Classify` and `ClassifyAsSent` in Template and Classifier over the
--     list of method descriptors, and the role evaluator in Roles.
--   * Aws (internal/auth/aws): URI templates and the REST classifier in Template and Rest, the other
--     protocols in Protocols, the resolver of IAM actions in Actions, the policy evaluation in
--     Evaluator over two records, the cache of package lru and IAM, and `AuthorizeAction` from the
--     parsed host and its models on in Gate.
--   * Interrupt (internal/interrupt): the state machine, one function per method; since a mutex
--     guards each method, a run is a list of calls.
--   * Agents (internal/agentcatalog): agent names in Name, the frontmatter of an agent file and the
--     composed prompt in Front.
--   * Audit (internal/audit/rotate.go): the retention in nanoseconds of an int64 and the writer that
--     rotates a file by age. Files is the active file, on which the logger may start anew at any write.
--   * Hints (internal/apiref/candidates.go): the operations suggested for a request that matched none;
--     `EditDistance` in Distance, the rest in Candidates.
--   * Verify (internal/agent/verify.go): the adversarial verification of findings. Walk is the search
--     for a repeated key, over the tokens of the JSON decoder; Documents the JSON that tokens come
--     from; Verdicts, Decode and Pass are `aggregate`, `decodeVerdictObject` and `parsePass`; Passes
--     is `runPass`, `runPasses` and `runScoped`.
--   * Loop (internal/agent/loop.go, failure_summary.go and internal/schema/message.go): one run of the
--     agent. Messages is the transcript, Act the steps, which send to the model and the tools and may
--     end in an error; Steps and Turns are `run`, `acceptTurn`, `dispatchAndTrack` and
--     `failureSummary`. `maxIter` is the number of rounds, on which `run` recurses.
--   * Dial (internal/auth/addr.go): which resolved addresses may be dialled. Address is what it calls of
--     package net/netip, on bytes; Floor is `floorForbidden`, `isInternalIP` and `AuthorizeAddr`. An
--     address that is embedded in another is an IPv4 address, which embeds none, so the recursion on it
--     is written as one more level.
--   * Sandbox (internal/sandbox/loop.go, and `Run` of sandbox.go): the loop, the workers and the
--     teardown of one run of a script. Pool is their shared state and Steps the step relation.
--   * Base: Go's strings as lists of bytes with the functions of package strings that the program
--     calls, `(T, error)` as Result, and shared lemmas. The files named Tests hold runs and
--     instances at concrete inputs.
--
-- How code corresponds to definitions: a definition carries the Go name in snake_case, and the
-- comment above it names the function or the part of one that it is. Go maps are association lists,
-- nil pointers and false second results are `none`, errors are values of a type per component. An
-- index loop over a slice is a recursion on what is left of the slice. No definition takes fuel: a
-- loop recurses on a list, the agent's on the number of rounds it is given. GitHub's `Lookup` answers
-- nothing for a path of more than 8192 slashes, and what is said of it is said for shorter paths.
--
-- What is not modelled: the fetching, parsing and caching of tables, catalogs and roles; TLS,
-- sockets and `configureTransport`, whose answer is given; request headers and bodies, save what the
-- AWS classifier reads of them; the text of messages.
-- Upper and lower case, white space and `strings.EqualFold` are those of ASCII, save in Verify and
-- in Loop, where they are parameters as the JSON decoder is. The language model, the JavaScript engine,
-- the approval, the audit records and the history of the agent, redaction, the command line and the
-- clients of language models are left out.
pub mod Agents
pub mod Audit
pub mod Authority
pub mod Authreq
pub mod Aws
pub mod Azure
pub mod Base
pub mod Dial
pub mod Exposure
pub mod Gcp
pub mod Github
pub mod Gitlab
pub mod Hints
pub mod Interrupt
pub mod K8s
pub mod Loop
pub mod Sandbox
pub mod Transport
pub mod Verify
