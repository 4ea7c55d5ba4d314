-- ===== src/BrowserLease.antt =====
-- The lease on the browser of a project: crates/agentplug-host/src/browser_lease.rs. The holder stands in
-- the file owner.json, which all processes share; the maps of one process are the other fields of
-- a `World`. serde_json's printer and parser are parameters, as are the probes of processes and ports.
-- The calls of the file system do not fail.
mod Examples
pub mod Resets
pub mod Housekeeping
pub mod Heartbeat
pub mod Holder
pub mod Browsers
pub mod Sessions
pub mod Claim
use agentplug.Base.{
  ℕ, ◌+◌, ◌-◌, ◌%◌, ◌^◌, ◌==◌, ltb, Bool, true, false, not, List, [], ◌∷◌, ◌++◌, Option, none, some,
  String, if◌then◌else◌,
}
use agentplug.Base.Maps.{Text, text_key, lookup, insert, remove}
use agentplug.Verbs.Json.{Value, Fields, get, as_str, as_u64}

abbrev pub default_ttl_ms : ℕ
default_ttl_ms = 120_000

abbrev pub claim_create_grace_ms : ℕ
claim_create_grace_ms = 5_000

pub record LeaseHolder : Type 0 where
  pub owner : String
  pub pid : ℕ
  pub browser_pid : ℕ
  pub port : ℕ
  pub started_at_ms : ℕ
  pub heartbeat_at_ms : ℕ
  pub ttl_ms : ℕ

-- `Child` is the launcher's process id.
pub record SharedBrowser : Type 0 where
  pub child : Option ℕ
  pub pid : ℕ
  pub port : ℕ
  pub profile : Text
  pub headful : Bool
  pub active : List (String × Unit {0})
  pub idle_since_ms : Option ℕ
  pub attached : Bool

-- What is read from browser.json.
pub record BrowserRecord : Type 0 where
  pub port : ℕ
  pub pid : ℕ
  pub idle_since_ms : ℕ
  pub headful : Bool
  pub profile : Option Text
  pub attached : Bool

pub record OwnerFile (Doc : Type 0) : Type 0 where
  pub contents : Doc
  pub modified : ℕ

-- A call that acts on other processes.
pub data Effect : Type 0 where
  kill_tree : ℕ → Effect
  reap : Text → Effect
  close : SharedBrowser → Effect

-- `stopped` has the flags of heartbeat threads that were told to stop, `next_flag` the next new flag.
pub record World (Doc : Type 0) : Type 0 where
  pub owner_files : List (Text × OwnerFile Doc)
  pub records : List (Text × BrowserRecord)
  pub claimed : List (Text × Unit {0})
  pub waiters : List (Text × ℕ)
  pub heartbeats : List (Text × ℕ)
  pub stopped : List ℕ
  pub next_flag : ℕ
  pub attended : List (Text × ℕ)
  pub browsers : List (Text × SharedBrowser)
  pub effects : List Effect

-- One process: its id, its window for idle browsers, and serde_json's functions.
pub record Host (Doc : Type 0) : Type 0 where
  pub pid : ℕ
  pub idle_window_ms : ℕ
  pub parse : Doc → Option Value
  pub print : Value → Doc
  pub decimal : ℕ → String

abbrev pub is_some {ℓ} : {A : Type ℓ} → Option A → Bool
is_some none = false
is_some (some a) = true

abbrev pub u64_or_zero : Option ℕ → ℕ
u64_or_zero none = 0
u64_or_zero (some n) = n

members : List (String × Value) → Fields
members [] = Fields.end
members ((key, value) ∷ rest) = Fields.field key value (members rest)

-- A number that is not a `u64` is negative or has a fraction, and counts as 0 either way.
pub int_field : Value → String → ℕ
int_field value key = elim (get key value) [ none ↦ 0 | some v ↦ u64_or_zero (as_u64 v) ]

unfoldable pub effective_ttl : ℕ → ℕ
effective_ttl ttl_ms = if ttl_ms == 0 then default_ttl_ms else ttl_ms

module _ {Doc : Type 0} (host : Host Doc) where
  -- `LeaseHolder::new`
  abbrev pub new_holder : String → ℕ → ℕ → LeaseHolder
  new_holder owner ttl_ms now = record {
    owner = owner;
    pid = host.pid;
    browser_pid = 0;
    port = 0;
    started_at_ms = now;
    heartbeat_at_ms = now;
    ttl_ms = ttl_ms;
  }

  abbrev number_value : ℕ → Value
  number_value n = Value.number (host.decimal n) (some n)

  pub to_value : LeaseHolder → Value
  unfolding members
  to_value h = Value.object (
      members (
        ("owner", Value.text h.owner)
        ∷ ("pid", number_value h.pid)
        ∷ ("browser_pid", number_value h.browser_pid)
        ∷ ("port", number_value h.port)
        ∷ ("startedAt", number_value h.started_at_ms)
        ∷ ("heartbeatAt", number_value h.heartbeat_at_ms)
        ∷ ("ttlMs", number_value h.ttl_ms)
        ∷ []))

  holder_in : Value → Option String → Option LeaseHolder
  unfolding int_field effective_ttl
  holder_in value none = none
  holder_in value (some owner) = some (record {
    owner = owner;
    pid = int_field value "pid" % 2 ^ 32;
    browser_pid = int_field value "browser_pid" % 2 ^ 32;
    port = int_field value "port" % 2 ^ 16;
    started_at_ms = int_field value "startedAt";
    heartbeat_at_ms = int_field value "heartbeatAt";
    ttl_ms = effective_ttl (int_field value "ttlMs");
  })

  holder_from : Option Value → Option LeaseHolder
  unfolding holder_in
  holder_from none = none
  holder_from (some value) =
      holder_in value (elim (get "owner" value) [ none ↦ none | some v ↦ as_str v ])

  holder_read : Option (OwnerFile Doc) → Option LeaseHolder
  unfolding holder_from
  holder_read none = none
  holder_read (some file) = holder_from (host.parse file.contents)

  unfoldable pub read_holder : Text → World Doc → Option LeaseHolder
  unfolding holder_read
  read_holder root w = holder_read (lookup root w.owner_files)

  unfoldable pub write_holder : Text → LeaseHolder → ℕ → World Doc → World Doc
  unfolding to_value
  write_holder root holder now w = record w {
    owner_files =
        insert root (record { contents = host.print (to_value holder); modified = now })
          w.owner_files;
  }

  -- `none` where the file is not there, whose age is `u64::MAX`.
  abbrev in_grace : ℕ → Option (OwnerFile Doc) → Bool
  in_grace now none = false
  in_grace now (some file) = ltb (now - file.modified) claim_create_grace_ms

  abbrev beat_is_recent : ℕ → ℕ → Bool → Option LeaseHolder → Bool
  beat_is_recent now ttl_ms grace none = grace
  beat_is_recent now ttl_ms grace (some holder) = ltb (now - holder.heartbeat_at_ms) ttl_ms

  unfoldable pub holder_live : Text → ℕ → ℕ → World Doc → Bool
  unfolding effective_ttl
  holder_live root ttl_ms now w =
      beat_is_recent now (effective_ttl ttl_ms) (in_grace now (lookup root w.owner_files))
        (read_holder root w)

  abbrev by_pid : ℕ → Option LeaseHolder → Bool
  by_pid pid none = false
  by_pid pid (some holder) = holder.pid == pid

  unfoldable pub claim_is_ours : Text → World Doc → Bool
  claim_is_ours root w = by_pid host.pid (read_holder root w)
