-- ===== src/Lib.antt =====
-- A model of the core of `fdh`, the command line tool of the forge development hub. A hub is a git
-- repository with a catalog of components (skills, rules, agents and hooks). A consumer repository
-- names the components that it wants in a manifest, `.fdh/manifest.yaml`; the tool expands the
-- manifest against the catalog, installs the components for the agents in use, writes what it
-- resolved to `.fdh/lock.yaml`, lists the installed paths in a section of `.gitignore` that it
-- manages, and records the machine's installs in the ledger `~/.fdh/state.json`.
--
-- Files, and the code that each is about:
--   Kinds: the four kinds, pkg/hubregistry/types.go.
--   Hub: the catalog, pkg/hubregistry/types.go and load.go: `parse` in both shapes, the look-ups,
--     `fetch_component` (FetchComponent). Hub/Paths and Hub/Validate: validate.go, each rule of
--     Validate as a list of findings. Hub/Valid, Hub/Verdict and Hub/Views hold proofs.
--   Manifest: pkg/consumermanifest/consumermanifest.go: Load, Validate, HasAnyEntries.
--     Manifest/Expand: Expand, from the members of the harness to the sorted result.
--   Semver: pkg/consumermanifest/semver.go: ParseConstraint, Matches, HighestSatisfying.
--   Lock: pkg/consumerlock/consumerlock.go: Build, decode, Diff.
--   Gitignore: pkg/gitignore/gitignore.go: Apply and Read, with rewrite and splitSection.
--   Ledger: pkg/state/state.go: Load, Save and the changes of the ledger.
--   Provenance: pkg/provenance/provenance.go: the breadcrumb of an installed file.
--   Update: the planner of `fdh update`, internal/cli/update_plan.go and update_run.go.
--   Telemetry: internal/cli/telemetry (telemetry.go, consent.go): the signals, the state file, the
--     install id. Telemetry/Emitter: emit.go. Telemetry/Session: internal/cli/telemetry.go and
--     telemetry_cmd.go, the commands as steps of a machine. Telemetry/Verdict, Posted, Identity,
--     Session/Private and Session/Reach hold proofs.
--   Gitops: internal/portalapi/gitops: the portal's pull requests. Gitops/Node: the trees of the
--     YAML library and the helpers on them; Gitops/Registry and Gitops/Harness: registry_edit.go
--     and harness_edit.go; Gitops/Client: client.go and compose.go, with `push` for the end that
--     the composers share; Gitops/Curate: compose_curate.go; Gitops/Import: compose_import.go,
--     validate.go and compose_harness.go. The others hold proofs.
--   Managed: the ownership markers, pkg/managed/managed.go, with their migration.
--   Instincts: pkg/instincts/format.go: the checks, Encode and Decode; Instincts/Ulid: NewULID and
--     encodeCrockford. Instincts/Clusters: transitiveClusters of cluster.go, and
--     Instincts/Clusters/Candidates: ClusterAll. Instincts/Storage: storage.go. The others hold
--     proofs.
--   Adapters: the manifest of the agents, pkg/adapters/adapters.go: validate, AgentByID and
--     mergeManifests, with validateProbe of probes.go. Adapters/Paths: PathSet and ExpandPath.
--     Adapters/Override and Adapters/Paths/Served hold proofs.
--   Bundle: the walks of pkg/bundle (bundle.go, hash.go, tarball.go); Bundle/Packed holds proofs.
--   Http: the cache of pkg/registry/http.go; Http/Sent and Http/Fresh hold proofs.
--   Archive: extractTarGz of pkg/registry/git.go; Archive/Inside holds proofs.
--   Scan: pkg/scan/scan.go; Scan/Verdicts holds proofs.
--   Tests: concrete runs, and the theorems at concrete inputs.
--   Base: texts, Boolean tests, sorting, maps whose keys are pairs, and their laws.
-- The manifest's Expand looks components up in the catalog and matches their versions with Semver;
-- the lock is built from what Expand returns, and Diff compares the two.
--
-- Conventions. A text is a list of bytes as natural numbers. A nil pointer or an error with one
-- cause is an Option, other errors are data types. A Go map is an association list in the order of
-- insertion; where the code iterates over one, the result is sorted afterwards. sort.Slice is a
-- stable insertion sort. A Go int is a natural number, since no negative one arises; strconv.Atoi
-- is clamped at 2 ^ 63 - 1 as in Go. A time is a number and the clock an argument. Functions
-- are structurally recursive but for find of the clusters, which has fuel; the square of the number
-- of items is enough, since each union makes a tree deeper by one at most. YAML and JSON codecs,
-- regular expressions, floating-point numbers, git, the disk, hashes and the installers of the
-- agents are parameters.
--
-- Not modelled: the network, git and the disk themselves, the bytes of archives, signing, the
-- layouts of the agents, the handlers of the portal API and its front end, and the
-- commands other than the parts named above. The texts of error messages are left out.
pub mod Adapters
pub mod Archive
pub mod Base
pub mod Bundle
pub mod Gitignore
pub mod Gitops
pub mod Http
pub mod Hub
pub mod Instincts
pub mod Kinds
pub mod Ledger
pub mod Lock
pub mod Managed
pub mod Manifest
pub mod Provenance
pub mod Scan
pub mod Semver
pub mod Telemetry
pub mod Tests
pub mod Update
