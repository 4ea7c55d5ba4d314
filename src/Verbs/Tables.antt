-- ===== src/Verbs/Tables.antt =====
-- The verb tables of crates/agentplug-host/src/registry.rs, entry for entry and in the source's order.
use agentplug.Base.{List, [], ◌∷◌, String}

abbrev pub short_dispatch_verbs : List String
short_dispatch_verbs =
    "grep" ∷ "fs_read" ∷ "fs_readdir" ∷ "fs_stat" ∷ "env_get" ∷ "kv_get" ∷ "config_resolve"
    ∷ "status" ∷ "wait" ∷ "sleep" ∷ "phase-status" ∷ "prd-list" ∷ "prd-status" ∷ "mutable-list"
    ∷ "ci-status" ∷ "git_status" ∷ "branch_status" ∷ "git_log" ∷ "git_diff" ∷ "git_show" ∷ []

abbrev pub heavy_dispatch_verbs : List String
heavy_dispatch_verbs =
    "code_index" ∷ "embed" ∷ "health" ∷ "index" ∷ "scan_deps" ∷ "background-convert" ∷ "bert"
    ∷ "libsql" ∷ []

abbrev pub codesearch_scope_fields : List String
codesearch_scope_fields = "paths" ∷ "path" ∷ "path_glob" ∷ "glob" ∷ "include" ∷ []

abbrev pub unserialized_verbs : List String
unserialized_verbs =
    "browser-reset" ∷ "dream-replay-cycle" ∷ "exec_js" ∷ "lang" ∷ "nodejs" ∷ "javascript" ∷ "node"
    ∷ "js" ∷ "typescript" ∷ "python" ∷ "py" ∷ "bash" ∷ "sh" ∷ "shell" ∷ "zsh" ∷ "powershell" ∷ "ps1"
    ∷ "ssh" ∷ "go" ∷ "rust" ∷ "c" ∷ "cpp" ∷ "java" ∷ "deno" ∷ "fetch" ∷ "callers" ∷ "callees"
    ∷ "impact" ∷ "fs_read" ∷ "fs_readdir" ∷ "fs_stat" ∷ "fs_write" ∷ "env_get" ∷ "kv_get"
    ∷ "config_resolve" ∷ "git_status" ∷ "branch_status" ∷ "git_log" ∷ "git_diff" ∷ "git_show"
    ∷ "ci-status" ∷ "ci-log" ∷ "git_poll" ∷ "status" ∷ "wait" ∷ "sleep" ∷ "close" ∷ "phase-status"
    ∷ "instruction" ∷ "prd-list" ∷ "prd-status" ∷ "mutable-list" ∷ "filter" ∷ []

abbrev pub state_read_verbs : List String
state_read_verbs =
    "instruction" ∷ "phase-status" ∷ "prd-list" ∷ "prd-status" ∷ "mutable-list" ∷ "status" ∷ []

abbrev pub blocking_dispatch_verbs : List String
blocking_dispatch_verbs =
    "exec_js" ∷ "lang" ∷ "nodejs" ∷ "javascript" ∷ "node" ∷ "js" ∷ "typescript" ∷ "python" ∷ "py"
    ∷ "bash" ∷ "sh" ∷ "shell" ∷ "zsh" ∷ "powershell" ∷ "ps1" ∷ "ssh" ∷ "go" ∷ "rust" ∷ "c" ∷ "cpp"
    ∷ "java" ∷ "deno" ∷ "fetch" ∷ []

abbrev pub git_lane_verbs : List String
git_lane_verbs =
    "git_add" ∷ "git_commit" ∷ "git_finalize" ∷ "git_push" ∷ "git_pull" ∷ "git_fetch"
    ∷ "git_worktree" ∷ "git_checkout" ∷ "git_merge" ∷ "git_merge_abort" ∷ "git_branch"
    ∷ "git_branch_delete" ∷ "git_rm" ∷ "git_revert" ∷ "git_reset" ∷ "git_reset_head" ∷ "git_stash"
    ∷ "git_stash_pop" ∷ "git_stash_drop" ∷ "git_stash_list" ∷ "git_worktree_add"
    ∷ "git_worktree_remove" ∷ "git_worktree_prune" ∷ []

abbrev pub git_network_lane_verbs : List String
git_network_lane_verbs = "git_push" ∷ "git_pull" ∷ "git_fetch" ∷ []

abbrev pub read_lane_verbs : List String
read_lane_verbs = "health" ∷ []

abbrev pub store_lane_verbs : List String
store_lane_verbs =
    "scan_deps" ∷ "codeinsight_index" ∷ "code_index" ∷ "embed" ∷ "index" ∷ "libsql" ∷ "bert"
    ∷ "config-sync-now" ∷ "dataflow_resolve" ∷ "sql_open" ∷ "sql_close" ∷ "sql_list_dbs"
    ∷ "sql_exec" ∷ "sql_query" ∷ "sql_smoke" ∷ "sql_serialize" ∷ "sql_deserialize" ∷ "cache_get"
    ∷ "cache_put" ∷ "cache_invalidate" ∷ "cache_stats" ∷ "kv_put" ∷ "kv_query" ∷ []

abbrev pub tree_scan_verbs : List String
tree_scan_verbs = "grep" ∷ "codesearch" ∷ []

abbrev pub unserialized_store_writer_verbs : List String
unserialized_store_writer_verbs = "codeinsight" ∷ "callers" ∷ "callees" ∷ "impact" ∷ []

abbrev pub browser_lane_verbs : List String
browser_lane_verbs = "browser" ∷ "chrome" ∷ []
