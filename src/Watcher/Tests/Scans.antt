-- ===== src/Watcher/Tests/Scans.antt =====
-- Instances of the theorems about the passes and the rounds of a watcher.
use naivolt.Base.{◌≤◌, ◌<◌, ◌≡◌, refl, sym, ap, ◌∙◌, true, ok, none, some, [], arith}
use naivolt.Base.Text.{codes}
use naivolt.Watcher.Network.{Network, min_confirmations}
use naivolt.Watcher.Store.{DepositRow, is_confirmed, seen, confirmed, find_deposit}
use naivolt.Watcher.Store.Conservation.{Conserves}
use naivolt.Watcher.Scan.{Node, included, missing, advance_pending, check_reorgs}
use naivolt.Watcher.Scan.Pending.{advance_pending-Conserves}
use naivolt.Watcher.Scan.Confirms.{advance_pending-confirms}
use naivolt.Watcher.Scan.Reorgs.{check_reorgs-Conserves}
use naivolt.Watcher.Scan.Kept.{check_reorgs-keeps}
use naivolt.Watcher.LogWindow.Bounds.{IsBounded}
use naivolt.Watcher.Watch.{
  transfers, range_refused, Endpoint, Watching, handle_transfers, scan_round, watch_round,
}
use naivolt.Watcher.Watch.Rounds.{watch_round-scan, watch_round-advances, scan_round-position}
use naivolt.Watcher.Watch.Coverage.{Run, begun, round, scanned, Covered, watch-covers}
use naivolt.Watcher.Tests.{row_with, db_with, db_with-IsTracked, row_found}

advance_pending-Conserves_example :
    Conserves (db_with seen) (advance_pending Network.tron 130 (db_with seen))
advance_pending-Conserves_example =
    advance_pending-Conserves Network.tron 130 (db_with seen) (db_with-IsTracked seen)

deep : min_confirmations Network.tron ≤ 31
unfolding min_confirmations
deep = omega arith

advance_pending-confirms_example :
    (row' : DepositRow) × (find_deposit 5 (advance_pending Network.tron 130 (db_with seen)).deposits
      ≡ some row')
    × (is_confirmed row'.status ≡ true)
advance_pending-confirms_example =
    advance_pending-confirms Network.tron 130 (db_with seen) 5 (row_with seen)
      (db_with-IsTracked seen) (row_found seen) refl refl deep

-- A node that has every block under another hash, and every transaction in block 101.
abbrev moved_node : Node
moved_node = record {
  block_hash = λ time block. some (codes "cc03");
  transaction_location = λ time hash. included 101 (codes "cc03");
}

-- A node that has none of the transactions.
abbrev forgetful_node : Node
forgetful_node = record {
  block_hash = λ time block. some (codes "cc03");
  transaction_location = λ time hash. missing;
}

check_reorgs-Conserves_example :
    ((check_reorgs forgetful_node Network.tron 110 (db_with confirmed)).0 ≡ ok tt)
    × Conserves
        (db_with confirmed)
        (check_reorgs forgetful_node Network.tron 110 (db_with confirmed)).1
check_reorgs-Conserves_example =
    check_reorgs-Conserves forgetful_node Network.tron 110 (db_with confirmed)
      (db_with-IsTracked confirmed)

check_reorgs-keeps_example :
    (row' : DepositRow) × (find_deposit 5
        (check_reorgs moved_node Network.tron 110 (db_with confirmed)).1.deposits
      ≡ some row')
    × (is_confirmed row'.status ≡ true)
check_reorgs-keeps_example =
    check_reorgs-keeps moved_node Network.tron 110 (db_with confirmed) 5 (row_with confirmed)
      (db_with-IsTracked confirmed) (row_found confirmed) refl (λ time e. ground arith)

abbrev answering : Endpoint
answering = record {
  head = 120;
  token_transfers = λ from to. transfers [];
  node = moved_node;
  tip_hash = λ block. none;
}

abbrev refusing : Endpoint
refusing = record answering { token_transfers = λ from to. range_refused }

abbrev start : Watching
start = record {
  position = 100;
  window = record { size = 10; max_size = 2000 };
  transient_failures = 3;
  db = db_with seen;
}

start-IsBounded : IsBounded start.window
start-IsBounded = record { low = omega arith; high = omega arith }

answered_fine : (watch_round Network.base answering start).0 ≡ ok tt
unfolding handle_transfers scan_round
answered_fine =
    let after =
      advance_pending-Conserves Network.base 120 (db_with seen) (db_with-IsTracked seen) in
    rw (watch_round-scan Network.base answering start [] (omega arith) refl)
      (rw ((check_reorgs-Conserves moved_node Network.base 120 _ after.0).0, scan_round))

watch_round-advances_example :
    (100 < (watch_round Network.base answering start).1.position)
    × ((watch_round Network.base answering start).1.position ≤ 120)
    × ((watch_round Network.base answering start).1.transient_failures ≡ 0)
watch_round-advances_example =
    watch_round-advances Network.base answering start [] start-IsBounded (omega arith) refl
      answered_fine

one_round :
    Run Network.base start
      (scanned Network.base answering start [])
      (watch_round Network.base answering start).1
one_round = round begun answering answered_fine

reached : (watch_round Network.base answering start).1.position ≡ 110
reached =
    let scan = watch_round-scan Network.base answering start [] (omega arith) refl in
    ap (λ p. p.1.position) scan
    ∙ (scan_round-position Network.base answering start []
        (ap (λ p. p.0) (sym scan) ∙ answered_fine)).0

watch-covers_example : Covered 105 (scanned Network.base answering start [])
watch-covers_example =
    watch-covers Network.base start (watch_round Network.base answering start).1
      (scanned Network.base answering start []) start-IsBounded one_round 105 (omega arith)
      (omega (arith, reached))
