-- ===== src/Lib.antt =====
-- ss-common: the shared contracts (`ss_contracts`) and runtime helpers (`ss_kit`) of the ss services.
-- Paths below are from the repository's root.
--
-- Prelude, Regex, Result, Value hold what the parts share: texts as lists of code points, Python's
-- dictionaries as association lists, regular expressions as tests by clauses (with `$` before a final
-- newline, as `re.match` has it), exceptions as results, and parsed documents.
--
-- Topics is src/ss_contracts/topics.py: patterns, `match`, `build`, `subscription`, `resolve`;
-- TopicDocument is its loader. Binding is src/ss_contracts/tooling/binding.py, TopicCheck is
-- src/ss_contracts/tooling/topics.py, which finds the faults of a topic map, and TopicBuilder is the
-- class of src/ss_kit/mqtt.py that serves a contract's topics from such a map. Types and Rules are
-- src/ss_contracts/tooling/types.py and rules.py: which kinds a logical type may carry, the patterns
-- and words (Words), and the rules on properties and documents (Properties). Contract is
-- src/ss_contracts/tooling/odcs.py: its records, and (Loading) what turns a document without findings
-- into a contract. A property goes down to its record's properties, whose rules let no record follow,
-- so the conversion takes fuel two; more does not matter. The official JSON Schema, PyYAML, the names
-- of Pydantic's BaseModel and `str` of values that are no texts are parameters.
--
-- Registry is src/ss_contracts/tooling/registry.py: the consistency findings, and the contracts that
-- load. Paths and what the file system tells of them are a record of operations.
--
-- Evolution is src/ss_contracts/tooling/evolution_policy.py and evolution.py: Snapshot and Classify
-- turn two snapshots into a report, Version and Policy check the bump of the version, Numbers looks
-- for proto numbers that name two fields (Carried says which fields carry one), and History evaluates
-- and freezes the histories (Atomic is on the files that a freeze leaves). Baseline files are a
-- dictionary, and the registry's contracts are given as their snapshots. Attributes and constraints
-- are compared as Python's `==` has it, a Boolean being 0 or 1, and a proto number is any integer. A
-- version's parts are read by the digits 0 to 9, which are all that VERSION_RE of rules.py lets a
-- contract's version have; the other digits that `str.isdigit` takes are not modelled.
--
-- Readiness is src/ss_contracts/tooling/gen/checker.py: the proto field numbers of a message and of
-- its records, and (Formats) the hints that each format needs.
--
-- RateLimiter is the limiter of src/ss_kit/security.py: token buckets in a table of clients, whose
-- floats are a parameter with the laws of floats other than NaN, and whose clock readings are
-- arguments.
--
-- Security is the rest of that file: keys and signatures (Utf8 and Keys), the allowlist of paths
-- (Paths) and point ids (PointId). Web is src/ss_kit/web: the headers that the middleware sets, API
-- keys, client addresses and rate limits, and Jwt the configuration of the validator and the bearer
-- header. HMAC, SHA-256, `str.lower`, `str.upper`, the file system, and the floats of the leeway are
-- parameters.
--
-- Env is src/ss_kit/env.py: quoting and expansion, the loop over the lines (Lines), whose index is the
-- number of characters still to be passed, so that it is a recursion on the text, and `load_env_files`
-- (Layers) over a dictionary of variables. Which paths are files, and their texts, are a parameter.
--
-- Mqtt is the rest of src/ss_kit/mqtt.py: the settings read from variables, the findings on the files
-- of TLS and the context (Tls has what is shown of it), and what a client is given (Client). The
-- library ssl is a record of the operations that are called, with its documented effects on what can
-- be read off a context as hypotheses.
--
-- Of src/ss_kit/quality, the module Plan has Task and the references of its fields (plan_model.py),
-- Cycles the depth first search of plan_integrity.py, Integrity its findings on the registry, tasks
-- and dependencies, and Summary the open dependencies and the eligible tasks of plan_summary.py. The
-- search takes fuel, one unit for each task on its path; the number of tasks is enough, since a task
-- on the path is not entered again. Python's tables for `\b` and `str.upper` are parameters.
--
-- Error messages are data: a constructor for each message, with what is formatted into it. Loops are
-- recursions on the lists or trees that they go through, and but for that search need no fuel. Not
-- modelled: files, YAML and JSON parsing, the generators, third-party libraries, logging handlers,
-- processes.
pub mod Prelude
pub mod Result
pub mod Value
pub mod Regex
pub mod Topics
pub mod Contract
pub mod Types
pub mod Rules
pub mod Binding
pub mod TopicCheck
pub mod TopicDocument
pub mod TopicBuilder
pub mod Evolution
pub mod Plan
pub mod RateLimiter
pub mod Security
pub mod Web
pub mod Readiness
pub mod Env
pub mod Registry
pub mod Mqtt
