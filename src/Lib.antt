-- ===== src/Lib.antt =====
-- ARTIFEX: an agent-neutral layer that controls development by contracts, durable runs and evidence.
--
-- Parts and files. A definition has the name of the Python function, method or class that it
-- models; a constructor's checks (`__post_init__`) are a function with the class's name in small
-- letters.
--   Policy: src/artifex/policy.py.
--   Workflow: src/artifex/workflow/core.py. Contract has the contracts and their checks, Engine the
--   stage engine as state passing over the dictionary of stages, Liveness the liveness guard.
--   Engine/Refinement describes a call by its own stage alone, Engine/Diagram is the standard state
--   diagram, Engine/Authority and Engine/Histories are about sequences of calls.
--   Runtime: src/artifex/runtime. Actor has principals, delegations and credentials of models.py,
--   Path `_safe_relative_path`, Envelope the execution envelope, Json the audit payloads with
--   `_secret_safe` of store.py, and Json/Secrets and Json/Paths what it hides. Store is
--   `SQLiteRunStore`: Tables has the rows, the transaction, the fence and the audit; Lease,
--   Transitions, Records, Proposals, Sessions, Requests and Controls the
--   methods. Store/Writes gathers the writing methods in one type and proves what they share,
--   Store/Fencing is about lost leases.
--   Coordinator is `ExecutionCoordinator` of coordinator.py: Creation, Dispatch, Attempts (start and
--   finish) and Reconciliation have its methods, which call those of Store. Acceptance is
--   `RuntimeAcceptanceAuthority` of acceptance.py. Scenarios has runs of both. Governance has the
--   managers of governance.py over the store: Sessions, Decisions (requests that block workstreams
--   until a user resolves them) and Controls (operational control by scope, the gate of dispatch).
--   Validation: src/artifex/validation. Contract has the acceptance contracts of core.py, Entry the
--   evidence entries, Validators what makes their results, Payload the codec of evidence.py, Ledger
--   the evidence ledger with its journal as a list of events, Gates the waivers and the gate graph.
--   Capabilities: src/artifex/capabilities. Models has the providers and requests of models.py and
--   the registry of registry.py, Resolver the choice of a provider of resolver.py.
--   Prelude: lists, texts, dictionaries, and methods that may raise.
--
-- How it is modelled. A method is a function from the state to a result, a value or the error that
-- was raised, and the state at that point, so that what was written before a raise shows. An error
-- is a constructor in place of the exception's class and message. SQLite's tables
-- are dictionaries by primary key; a transaction restores the state when its body raises, an
-- insertion tests the keys, the UNIQUE columns and the references of the schema, and an UPDATE by
-- key and state changes one row or none. Timestamps and counters are natural numbers, durations
-- whole microseconds; in Validation a timestamp is its ISO text. Recursion is structural, but for
-- the evaluation of gates: it takes fuel 4, one for each level of gates, and a theorem says that
-- this is enough.
--
-- Parameters: `scrub_secrets` (substitution by regular expressions), the fingerprint of an envelope
-- (a SHA-256 of its JSON) and the hash of a reconnect token are functions that the definitions
-- take, and nothing is assumed of them; so are, in Validation, the hashes of contracts and entries,
-- the JSON schema and what `datetime` does. Readings of the clock and new random identifiers are
-- arguments. `str.casefold` is modelled as far as ASCII letters come of it.
--
-- Not modelled: messages of exceptions, JSON encoding and hashing, file-system and process access,
-- the schema upgrade of the store, and the components that the library has no file for.
pub mod Prelude
pub mod Policy
pub mod Runtime
pub mod Workflow
pub mod Validation
pub mod Capabilities
