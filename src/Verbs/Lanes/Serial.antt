-- ===== src/Verbs/Lanes/Serial.antt =====
-- What the verb tables of crates/agentplug-host/src/registry.rs say together: the lanes and the cost
-- classes never contradict one another.
use agentplug.Base.{
  ◌≡◌, refl, inl, inr, ◌≢◌, Bool, true, false, not, ◌&&◌, ◌||◌, List, [], ◌∷◌, Option, none, some,
  String, str_eq, eq_iff, if◌then◌else◌, all, arith, Bool-cases,
}
use agentplug.Verbs.Json.{Value}
use agentplug.Verbs.Cost.{cheap, heavy, contains, cost_class_for_verb, cost_class_for_dispatch}
use agentplug.Verbs.Lanes.{
  Lane, git, read, store, state, browser, is_blocking_dispatch_verb, is_heavy,
  is_unserialized_dispatch, dispatch_serial_lane,
}
use agentplug.Verbs.Tables.{
  unserialized_verbs, blocking_dispatch_verbs, git_lane_verbs, short_dispatch_verbs,
  heavy_dispatch_verbs, read_lane_verbs, store_lane_verbs, tree_scan_verbs, browser_lane_verbs,
}

-- A test that every entry of a table passes is passed by every verb that the table contains.
all-contains :
    (p : String → Bool) (table : List String) (verb : String)
    → all p table ≡ true
    → contains table verb ≡ true
    → p verb ≡ true
unfolding contains
all-contains p [] verb h c = cc
all-contains p (entry ∷ table) verb h c = elim (Bool-cases (str_eq entry verb)) [
  | inl same ↦ rw (← (eq_iff entry verb).0 same) (ground arith)
  | inr other ↦ all-contains p table verb (ground arith) (rw other at c)
]

-- Neither unserialized nor a scan of the tree.
abbrev queues : String → Bool
queues v = not (contains unserialized_verbs v) && not (contains tree_scan_verbs v)

abbrev past_git : String → Bool
past_git v = queues v && not (contains git_lane_verbs v)

abbrev past_store : String → Bool
past_store v =
    past_git v
    && not (contains read_lane_verbs v)
    && not (contains store_lane_verbs v)
    && not (str_eq v "codesearch")

git_queues : all queues git_lane_verbs ≡ true
unfolding contains
git_queues = refl

read_past_git : all past_git read_lane_verbs ≡ true
unfolding contains
read_past_git = refl

store_past_read : all (λ v. past_git v && not (contains read_lane_verbs v)) store_lane_verbs ≡ true
unfolding contains
store_past_read = refl

browser_past_store : all past_store browser_lane_verbs ≡ true
unfolding contains
browser_past_store = refl

contains-nil : (verb : String) → contains [] verb ≢ true
unfolding contains
contains-nil verb h = cc

-- The table of each lane; the state lane takes what no table names.
abbrev pub verbs_of : Lane → List String
verbs_of git = git_lane_verbs
verbs_of read = read_lane_verbs
verbs_of store = store_lane_verbs
verbs_of browser = browser_lane_verbs
verbs_of state = []

module _ (parse : String → Option Value) where
  -- Each verb of a lane's table queues on that lane, whatever its body says: no git, read, store or
  -- browser verb is unserialized or falls to another lane.
  pub serial_lane_of_table :
      (lane : Lane) (verb body : String)
      → contains (verbs_of lane) verb ≡ true
      → dispatch_serial_lane parse verb body ≡ some lane
  unfolding dispatch_serial_lane is_unserialized_dispatch
  serial_lane_of_table git verb body h =
      ground (arith, all-contains queues git_lane_verbs verb git_queues h)
  serial_lane_of_table read verb body h =
      ground (arith, all-contains past_git read_lane_verbs verb read_past_git h)
  serial_lane_of_table store verb body h = ground (
    arith,
    all-contains (λ v. past_git v && not (contains read_lane_verbs v)) store_lane_verbs verb
        store_past_read h,
  )
  serial_lane_of_table browser verb body h =
      ground (arith, all-contains past_store browser_lane_verbs verb browser_past_store h)
  serial_lane_of_table state verb body h = absurd (contains-nil verb h)

abbrev waits_if_heavy : String → Bool
waits_if_heavy v = not (contains unserialized_verbs v) && not (contains tree_scan_verbs v)

heavy_waits : all waits_if_heavy heavy_dispatch_verbs ≡ true
unfolding contains
heavy_waits = refl

-- Unmetered by class and by lane: neither heavy nor short, not codesearch, and unserialized.
abbrev runs_free : String → Bool
runs_free v =
    not (contains heavy_dispatch_verbs v)
    && not (contains short_dispatch_verbs v)
    && not (str_eq v "codesearch")
    && contains unserialized_verbs v

blocking_runs_free : all runs_free blocking_dispatch_verbs ≡ true
unfolding contains
blocking_runs_free = refl

codesearch_serialized :
    (contains unserialized_verbs "codesearch" ≡ false)
    × (contains tree_scan_verbs "codesearch" ≡ true)
    × (contains git_lane_verbs "codesearch" ≡ false)
    × (contains read_lane_verbs "codesearch" ≡ false)
unfolding contains
codesearch_serialized = (refl, refl, refl, refl)

module _ (parse : String → Option Value) where
  heavy_of_class :
      (verb body : String)
      → str_eq verb "codesearch" ≡ false
      → cost_class_for_dispatch parse verb body ≡ heavy
      → contains heavy_dispatch_verbs verb ≡ true
  unfolding cost_class_for_dispatch cost_class_for_verb
  heavy_of_class verb body n h = ground arith

  -- What is not unserialized has a lane.
  serial_lane_of_serialized :
      (verb body : String)
      → is_unserialized_dispatch parse verb body ≡ false
      → (lane : Lane) × (dispatch_serial_lane parse verb body ≡ some lane)
  unfolding dispatch_serial_lane
  serial_lane_of_serialized verb body waits = elim (Bool-cases (contains git_lane_verbs verb)) [
    | inl is_git ↦ (git, ground (arith, waits, is_git))
    | inr no_git ↦ elim (Bool-cases (contains read_lane_verbs verb)) [
      | inl is_read ↦ (read, ground (arith, waits, no_git, is_read))
      | inr no_read ↦
          elim (Bool-cases (contains store_lane_verbs verb || str_eq verb "codesearch")) [
            | inl is_store ↦ (store, rw (waits, no_git, no_read, is_store) refl)
            | inr no_store ↦ elim (Bool-cases (contains browser_lane_verbs verb)) [
              | inl is_browser ↦ (browser, rw (waits, no_git, no_read, no_store, is_browser) refl)
              | inr no_browser ↦ (state, rw (waits, no_git, no_read, no_store, no_browser) refl)
            ]
          ]
    ]
  ]

  heavy_waits_for_lane :
      (verb body : String)
      → cost_class_for_dispatch parse verb body ≡ heavy
      → is_unserialized_dispatch parse verb body ≡ false
  unfolding is_unserialized_dispatch
  heavy_waits_for_lane verb body h = elim (Bool-cases (str_eq verb "codesearch")) [
    | inl e ↦ rw (h, (eq_iff verb "codesearch").0 e) (ground (arith, codesearch_serialized))
    | inr n ↦
        let listed = heavy_of_class verb body n h in
        ground (arith, all-contains waits_if_heavy _ verb heavy_waits listed)
  ]

  -- A dispatch of heavy cost has a serial lane, whatever its verb and body, and is not unserialized.
  pub heavy_is_serialized :
      (verb body : String)
      → cost_class_for_dispatch parse verb body ≡ heavy
      → (is_unserialized_dispatch parse verb body ≡ false)
        × (lane : Lane) × (dispatch_serial_lane parse verb body ≡ some lane)
  heavy_is_serialized verb body h =
      let waits = heavy_waits_for_lane verb body h in
      let (lane, queued) = serial_lane_of_serialized verb body waits in (waits, lane, queued)

  -- A blocking verb is of cheap cost and on no serial lane, whatever its body.
  pub blocking_is_unserialized :
      (verb body : String)
      → is_blocking_dispatch_verb verb ≡ true
      → (cost_class_for_dispatch parse verb body ≡ cheap)
        × (dispatch_serial_lane parse verb body ≡ none)
  unfolding is_blocking_dispatch_verb cost_class_for_dispatch cost_class_for_verb
      dispatch_serial_lane is_unserialized_dispatch
  blocking_is_unserialized verb body h =
      ground (arith, all-contains runs_free _ verb blocking_runs_free h)

  -- A codesearch queues on the store lane exactly when it is of heavy cost, and otherwise on none.
  pub codesearch_lane :
      (body : String)
      → dispatch_serial_lane parse "codesearch" body
        ≡ (if is_heavy (cost_class_for_dispatch parse "codesearch" body) then some store else none)
  unfolding dispatch_serial_lane is_unserialized_dispatch
  codesearch_lane body = ground (arith, codesearch_serialized)
