-- ===== src/Watcher/Watch/Rounds.antt =====
-- What each kind of answer makes of a round.
use naivolt.Base.{
  Bool, sym, ap, ◌∙◌, ◌+◌, ◌≤◌, ◌<◌, ◌≡◌, ◌⊎◌, refl, true, false, leb, Result, ok, err, inl, inr,
  List, if◌then◌else◌, Bool-cases, Result-cases, arith,
}
use naivolt.Watcher.Network.{Network}
use naivolt.Watcher.Deposit.{ObservedTransfer}
use naivolt.Watcher.Store.{StoreDb, StoreError}
use naivolt.Watcher.Scan.{advance_pending, check_reorgs}
use naivolt.Watcher.LogWindow.{LogWindow, shrink, grow}
use naivolt.Watcher.LogWindow.Bounds.{IsBounded, grow-IsBounded, shrink-IsBounded, shrink-smaller}
use naivolt.Watcher.Watch.{
  Logs, transfers, range_refused, failed, Endpoint, Watching, serves_no_logs, store_failed,
  max_transient_failures, handle_transfers, round_to, round_from, scan_round, watch_round,
}

pub Logs-cases :
    (l : Logs)
    → ((ts : List ObservedTransfer) × (l ≡ transfers ts)) ⊎ ((l ≡ range_refused) ⊎ (l ≡ failed))
Logs-cases (transfers ts) = inl (ts, refl)
Logs-cases range_refused = inr (inl refl)
Logs-cases failed = inr (inr refl)

module _ (n : Network) (e : Endpoint) (s : Watching) where
  -- A round with nothing new to ask for.
  pub watch_round-idle : e.head ≤ s.position → watch_round n e s ≡ (ok tt, s)
  unfolding watch_round
  watch_round-idle h = let idle : leb e.head s.position ≡ true = ground arith in rw idle refl

  pub watch_round-scan :
      (ts : List ObservedTransfer)
      → s.position < e.head
      → e.token_transfers (round_from n s) (round_to e s) ≡ transfers ts
      → watch_round n e s ≡ scan_round n e ts s
  unfolding watch_round
  watch_round-scan ts h q =
      let busy : leb e.head s.position ≡ false = ground arith in rw (busy, q) refl

  -- A refused range either makes the window strictly smaller and changes nothing else, or, when even
  -- a single block is refused, ends the loop with an error: no query is refused for ever.
  pub watch_round-refused :
      IsBounded s.window
      → s.position < e.head
      → e.token_transfers (round_from n s) (round_to e s) ≡ range_refused
      → ((w : LogWindow) × (watch_round n e s ≡ (ok tt, record s { window = w }))
          × (w.size < s.window.size))
        ⊎ ((watch_round n e s ≡ (err serves_no_logs, s)) × (s.window.size ≡ 1))
  unfolding watch_round
  watch_round-refused b h q =
      let busy : leb e.head s.position ≡ false = ground arith in
      elim (shrink-smaller s.window b) [
        | inl (more, smaller) ↦ inl ((shrink s.window).1, rw (busy, q, more) refl, smaller)
        | inr (no_more, one) ↦ inr (rw (busy, q, no_more) refl, one)
      ]

  -- What the check of the credited deposits gives in a round.
  abbrev checked : List ObservedTransfer → Result StoreError (Unit {0}) × StoreDb
  checked ts =
      check_reorgs e.node n e.head (advance_pending n e.head (handle_transfers ts e.head s.db))

  widened-IsBounded :
      (c : Bool) → IsBounded s.window → IsBounded (if c then grow s.window else s.window)
  widened-IsBounded true b = grow-IsBounded s.window b
  widened-IsBounded false b = b

  pub scan_round-window :
      (ts : List ObservedTransfer) → IsBounded s.window → IsBounded (scan_round n e ts s).1.window
  unfolding scan_round
  scan_round-window ts b = elim (Result-cases (checked ts).0) [
    | inl (done, fine) ↦ rw (fine, scan_round) (widened-IsBounded _ b)
    | inr (x, broken) ↦ rw (broken, scan_round) (widened-IsBounded _ b)
  ]

  -- After a scanned round the position is the last block asked for.
  pub scan_round-position :
      (ts : List ObservedTransfer)
      → (scan_round n e ts s).0 ≡ ok tt
      → ((scan_round n e ts s).1.position ≡ round_to e s)
        × ((scan_round n e ts s).1.transient_failures ≡ 0)
  unfolding scan_round
  scan_round-position ts h = elim (Result-cases (checked ts).0) [
    | inl (done, fine) ↦ rw (fine, scan_round) (refl, refl)
    | inr (x, broken) ↦
        let k : (scan_round n e ts s).0 ≡ err (store_failed x) = rw (broken, scan_round) in
        absurd (ground arith)
  ]

  -- A round that hears of its transfers and ends well moves the position strictly forward, to the
  -- head at most, and forgets the failures before it.
  pub watch_round-advances :
      (ts : List ObservedTransfer)
      → IsBounded s.window
      → s.position < e.head
      → e.token_transfers (round_from n s) (round_to e s) ≡ transfers ts
      → (watch_round n e s).0 ≡ ok tt
      → (s.position < (watch_round n e s).1.position)
        × ((watch_round n e s).1.position ≤ e.head)
        × ((watch_round n e s).1.transient_failures ≡ 0)
  watch_round-advances ts b h q fine =
      let scan = watch_round-scan ts h q in
      let (at, reset) = scan_round-position ts (ap (λ p. p.0) (sym scan) ∙ fine) in
      let low = b.low in rw scan (rw at (ground arith, ground arith, reset))

  pub watch_round-failed :
      s.position < e.head
      → e.token_transfers (round_from n s) (round_to e s) ≡ failed
      → (watch_round n e s).1 ≡ record s { transient_failures = s.transient_failures + 1 }
  unfolding watch_round
  watch_round-failed h q =
      let busy : leb e.head s.position ≡ false = ground arith in
      rw (busy, q)
        (elim (Bool-cases (leb max_transient_failures (s.transient_failures + 1))) [
          | inl last ↦ rw last refl
          | inr more ↦ rw more refl
        ])

  watch_round-shrinks :
      IsBounded s.window
      → s.position < e.head
      → e.token_transfers (round_from n s) (round_to e s) ≡ range_refused
      → IsBounded (watch_round n e s).1.window
  unfolding watch_round
  watch_round-shrinks b h q =
      let busy : leb e.head s.position ≡ false = ground arith in
      rw (busy, q)
        (elim (Bool-cases (shrink s.window).0) [
          | inl more ↦ rw more (shrink-IsBounded s.window b)
          | inr no_more ↦ rw no_more b
        ])

  -- Whatever a round hears, the window stays between one block and its limit.
  pub watch_round-IsBounded : IsBounded s.window → IsBounded (watch_round n e s).1.window
  watch_round-IsBounded b = elim (Bool-cases (leb e.head s.position)) [
    | inl idle ↦ rw (watch_round-idle (ground arith)) b
    | inr busy ↦
        let h : s.position < e.head = ground arith in
        elim (Logs-cases (e.token_transfers (round_from n s) (round_to e s))) [
          | inl (ts, q) ↦ rw (watch_round-scan ts h q) (scan_round-window ts b)
          | inr (inr q) ↦ rw (watch_round-failed h q) b
          | inr (inl q) ↦ watch_round-shrinks b h q
        ]
  ]
