-- ===== src/Watcher/Watch.antt =====
-- `watch_evm` of crates/watcher/src/main.rs: the loop of an EVM network, one round at a time.
pub mod Rounds
pub mod Coverage
use naivolt.Base.{
  ℕ, ◌+◌, ◌-◌, leb, min, Option, none, some, List, [], ◌∷◌, Result, ok, err, if◌then◌else◌,
}
use naivolt.Base.Text.{Text}
use naivolt.Watcher.Network.{Network, rescan_depth, scan_overlap}
use naivolt.Watcher.Deposit.{ObservedTransfer}
use naivolt.Watcher.Store.{StoreDb, StoreError, cursor, save_cursor}
use naivolt.Watcher.Scan.{Node, handle_transfer, advance_pending, check_reorgs}
use naivolt.Watcher.LogWindow.{LogWindow, new, shrink, grow}

-- What an endpoint answers to a query for logs.
pub data Logs : Type 0 where
  transfers : List ObservedTransfer → Logs
  range_refused failed : Logs

-- What a round hears from its endpoint.
pub record Endpoint : Type 0 where
  pub head : ℕ
  pub token_transfers : ℕ → ℕ → Logs
  pub node : Node
  pub tip_hash : ℕ → Option Text

-- The variables of the loop, and the tables.
pub record Watching : Type 0 where
  pub position : ℕ
  pub window : LogWindow
  pub transient_failures : ℕ
  pub db : StoreDb

pub data WatchError : Type 0 where
  serves_no_logs query_failed : WatchError
  store_failed : StoreError → WatchError

abbrev max_log_window : ℕ
max_log_window = 2000

abbrev pub max_transient_failures : ℕ
max_transient_failures = 5

-- Where the loop starts: behind the last block of before, or behind the head.
unfoldable pub watch_start : Network → ℕ → StoreDb → Watching
watch_start n head db = record {
  position = elim (cursor n db) [
    | some last ↦ last.0 - rescan_depth n
    | none ↦ head - rescan_depth n
  ];
  window = new max_log_window;
  transient_failures = 0;
  db = db;
}

unfoldable pub handle_transfers : List ObservedTransfer → ℕ → StoreDb → StoreDb
handle_transfers [] head db = db
handle_transfers (t ∷ ts) head db = handle_transfers ts head (handle_transfer t head db)

-- The blocks that a round asks for.
abbrev pub round_to : Endpoint → Watching → ℕ
round_to e s = min (s.position + s.window.size) e.head

abbrev pub round_from : Network → Watching → ℕ
round_from n s = s.position + 1 - scan_overlap n

-- A round after its query: the transfers, the waiting deposits and the credited ones in turn, and
-- then the cursor.
unfoldable pub scan_round :
    Network → Endpoint → List ObservedTransfer → Watching → Result WatchError (Unit {0}) × Watching
scan_round n e ts s =
    let to = round_to e s in
    let saturated = leb s.window.size (to - s.position) in
    let window = if saturated then grow s.window else s.window in
    let db₁ = advance_pending n e.head (handle_transfers ts e.head s.db) in
    let (checked, db₂) = check_reorgs e.node n e.head db₁ in
    elim checked [
      | err x ↦
          (err (store_failed x), record s { window = window; transient_failures = 0; db = db₂ })
      | ok done ↦ (
        ok tt,
        record {
          position = to;
          window = window;
          transient_failures = 0;
          db = save_cursor n to (e.tip_hash to) db₂;
        },
      )
    ]

-- One round of the loop; an error ends the loop.
unfoldable pub watch_round : Network → Endpoint → Watching → Result WatchError (Unit {0}) × Watching
watch_round n e s =
    if leb e.head s.position
    then (ok tt, s)
    else elim (e.token_transfers (round_from n s) (round_to e s)) [
      | transfers ts ↦ scan_round n e ts s
      | range_refused ↦
          let (narrowed, window) = shrink s.window in
          if narrowed then (ok tt, record s { window = window }) else (err serves_no_logs, s)
      | failed ↦
          let failures = s.transient_failures + 1 in
          let s₁ = record s { transient_failures = failures } in
          if leb max_transient_failures failures then (err query_failed, s₁) else (ok tt, s₁)
    ]
