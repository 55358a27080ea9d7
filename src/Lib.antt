-- ===== src/Lib.antt =====
-- A verification library of brain-mcp, an MCP server that gives language models access to vaults of
-- Markdown notes.
--
-- The program. A request carries a token; the server finds the identity that the token proves and
-- the vault that the call is for (src/obsidian_mcp/server.py), from a configuration that is checked
-- when the server starts (src/obsidian_mcp/config.py). Every path that a tool is given goes through
-- the access policy of the vault, narrowed by the identity's override
-- (src/obsidian_mcp/storage/policy.py), and every access to a file through the storage gateway
-- (src/obsidian_mcp/storage/filesystem.py). An index of links, tags and aliases follows the vault
-- (src/obsidian_mcp/domain/index.py) and answers queries in the read scope of the request
-- (src/obsidian_mcp/tools/scoping.py, src/obsidian_mcp/tools/query.py).
--
-- The files.
--   Base      Python's tests, results, strings, dictionaries, sets and sorting, with their laws.
--   Errors    the exception classes; a call that may raise is a `Result Error`.
--   Paths     `_normalise_relative` of policy.py. Walk is the independent description of it.
--   Rules     path rules: `matches_path_rule`, `rule_covers_rule` and the merges of policy.py.
--   Identity  `PolicyOverride` and `Identity` of config.py.
--   Policy    `EffectiveAccessPolicy` and `VaultAccessPolicy`; Policy/Access has the methods. The
--             file system and Unicode's table are the record `World`, the cache is state.
--   Models    the data classes of domain/models.py.
--   Index     `VaultIndex`: the state and its operations, Index/Sync for build, update and
--             reconcile, Index/Queries for the queries. Storage and parser are the record `Gateway`.
--   Json, Config, Settings  `load_vaults_file`, `Config.__init__` and what they call, of config.py.
--   Session   `_identity_for_token`, `_select_vault` and `VaultResolutionMiddleware` of server.py.
--   Scoping   `ReadScope` of tools/scoping.py.
--   Revisions tokens of domain/models.py and the preconditions of storage/revisions.py.
--   Storage   `_write_atomic` of storage/filesystem.py, with the steps of other processes and the
--             system calls that fail.
--             Storage/Files is the rest of the gateway on a tree of directories: the walks, the
--             authorization of trees, `move`, `delete`, `trash`, `restore`. Storage/Gate is what
--             it asks of the policy.
--   Query     the queries of tools/query.py that go by the index, and Query/Graph the link graph.
--   Tools     `write_note`, `patch_note`, `append_to_note`, `delete_note`, `patch_frontmatter` and
--             `manage_tags` of tools/write.py. Tools/Store is what they ask of the storage, an
--             interface with laws, which Tools/Directory fills for one directory by the atomic
--             write. Tools/Frontmatter is the frontmatter of a note. Tools/Replace is
--             `patch_note_text` and Tools/Sweep `find_replace_in_vault`, over Python's `re`;
--             Tools/Sections is `_patch_section` and `_patch_block_ref`, Tools/Move `move_note`
--             and `restore_note`.
--   Audit     `read_entries` of storage/audit.py.
--   Watcher   the debouncing of storage/watcher.py, as a step relation.
--   Envelope  the constructors of envelope.py.
--   Tests     the theorems at concrete inputs.
--
-- Conventions. A string is a list of code points; an absolute path is the list of its parts. An
-- operation of an object takes the object's state and returns the new one. Where Python calls the
-- operating system, a library or a table of Unicode, the model takes a function as a parameter, and
-- a theorem that relies on what the function does says so among its hypotheses. Messages of
-- exceptions are not modelled. A dictionary is an association list in the order of insertion, a set
-- is the list of its members. `parse_note` is taken to return.
--
-- Fuel. `update` has the number of nested calls that Python's stack has room for. Past it the model
-- raises `RecursionError`, as the program does, and what is proved of `update` holds at every depth.
-- The search for the link graph has a number of turns, and `weight` is a number that is enough. All
-- other loops are structural.
--
-- Not modelled: the parser's regular expressions and YAML, the observer and the polling loop of the
-- watcher, file locks but for their timeout, the writing of the audit log, the tools that edit
-- folders, boards, canvases and attachments, other processes during an operation on a tree, and the
-- registration of tools and routes. What the regular expressions of the tools find is a
-- parameter. `patch_note_text`, `find_replace_in_vault`, `move_note` and `restore_note` are modelled
-- up to the updates of the index that follow the writes.
pub mod Base
pub mod Errors
pub mod Paths
pub mod Rules
pub mod Identity
pub mod Policy
pub mod Models
pub mod Index
pub mod Json
pub mod Config
pub mod Settings
pub mod Session
pub mod Scoping
pub mod Revisions
pub mod Storage
pub mod Query
pub mod Envelope
pub mod Tests
pub mod Tools
pub mod Audit
pub mod Watcher
