-- ===== src/Watcher/Watch/Coverage.antt =====
-- No block is passed over.
use naivolt.Base.{
  ℕ, ◌≤◌, ◌<◌, ◌≡◌, ◌⊎◌, sym, ap, ◌∙◌, leb, ok, inl, inr, List, [], ◌∷◌, if◌then◌else◌, Bool-cases,
  arith,
}
use naivolt.Watcher.Network.{Network}
use naivolt.Watcher.Deposit.{ObservedTransfer}
use naivolt.Watcher.LogWindow.Bounds.{IsBounded}
use naivolt.Watcher.Watch.{Logs, transfers, Endpoint, Watching, round_to, round_from, watch_round}
use naivolt.Watcher.Watch.Rounds.{
  Logs-cases, watch_round-idle, watch_round-scan, watch_round-refused, watch_round-failed,
  watch_round-IsBounded, scan_round-position,
}

-- The range that a round adds to the ranges whose transfers were seen.
abbrev pub answered : ℕ × ℕ → Logs → List (ℕ × ℕ) → List (ℕ × ℕ)
answered range (transfers ts) seen = range ∷ seen
answered range _ seen = seen

abbrev pub scanned : Network → Endpoint → Watching → List (ℕ × ℕ) → List (ℕ × ℕ)
scanned n e s seen =
    if leb e.head s.position
    then seen
    else answered (round_from n s, round_to e s) (e.token_transfers (round_from n s) (round_to e s))
        seen

-- The rounds of a loop that has met no error so far, and the ranges whose transfers were seen.
pub data Run (n : Network) (start : Watching) : List (ℕ × ℕ) → Watching → Type 0 where
  begun : Run n start [] start
  round :
      {seen : List (ℕ × ℕ)} {s : Watching}
      → Run n start seen s
      → (e : Endpoint) → (watch_round n e s).0 ≡ ok tt
      → Run n start (scanned n e s seen) (watch_round n e s).1

abbrev pub Covered : ℕ → List (ℕ × ℕ) → Type 0
Covered b [] = ⊥
Covered b ((from, to) ∷ seen) = ((from ≤ b) × (b ≤ to)) ⊎ Covered b seen

-- The blocks up to the position are covered, and the window is in its bounds.
record IsCovered (start s : Watching) (seen : List (ℕ × ℕ)) : Type 0 where
  bounded : IsBounded s.window
  covered : (b : ℕ) → start.position < b → b ≤ s.position → Covered b seen

module _ (n : Network) (e : Endpoint) (start s : Watching) (seen : List (ℕ × ℕ))
    (fine : (watch_round n e s).0 ≡ ok tt) (h : IsCovered start s seen) (b : ℕ)
    (low : start.position < b) (high : b ≤ (watch_round n e s).1.position)
    (behind : s.position < e.head) where
  Covered-same : (watch_round n e s).1.position ≡ s.position → Covered b seen
  Covered-same same = h.covered b low (omega (arith, same, high))

  Covered-scan :
      (ts : List ObservedTransfer)
      → e.token_transfers (round_from n s) (round_to e s) ≡ transfers ts
      → Covered b ((round_from n s, round_to e s) ∷ seen)
  Covered-scan ts q =
      let scan = watch_round-scan n e s ts behind q in
      let (at, reset) = scan_round-position n e s ts (ap (λ p. p.0) (sym scan) ∙ fine) in
      let upto : b ≤ round_to e s = omega (arith, ap (λ p. p.1.position) scan ∙ at, high) in
      elim (Bool-cases (leb b s.position)) [
        | inl old ↦ inr (h.covered b low (ground arith))
        | inr fresh ↦ inl (ground arith, upto)
      ]

  Covered-busy : Covered b (
      answered
        (round_from n s, round_to e s)
        (e.token_transfers (round_from n s) (round_to e s))
        seen)
  Covered-busy = elim (Logs-cases (e.token_transfers (round_from n s) (round_to e s))) [
    | inl (ts, q) ↦ rw q (Covered-scan ts q)
    | inr (inr q) ↦ rw q (Covered-same (ap (λ p. p.position) (watch_round-failed n e s behind q)))
    | inr (inl q) ↦ rw q (elim (watch_round-refused n e s h.bounded behind q) [
      | inl (w, same, smaller) ↦ Covered-same (ap (λ p. p.1.position) same)
      | inr (same, one) ↦ Covered-same (ap (λ p. p.1.position) same)
    ])
  ]

IsCovered-round :
    (n : Network) (e : Endpoint) (start s : Watching) (seen : List (ℕ × ℕ))
    → (watch_round n e s).0 ≡ ok tt
    → IsCovered start s seen
    → IsCovered start (watch_round n e s).1 (scanned n e s seen)
IsCovered-round n e start s seen fine h = record {
  bounded = watch_round-IsBounded n e s h.bounded;
  covered = λ b low high. elim (Bool-cases (leb e.head s.position)) [
    | inl idle ↦
        let stays = watch_round-idle n e s (ground arith) in
        rw idle (h.covered b low (rw (ap (λ p. p.1.position) (sym stays)) high))
    | inr busy ↦ rw busy (Covered-busy n e start s seen fine h b low high (ground arith))
  ];
}

-- At any point of a loop that started with a window in its bounds and has met no error, every block
-- above the start and up to the position was in a range whose transfers were seen: refusals, failures
-- and changes of the window pass no block over.
pub watch-covers :
    (n : Network) (start s : Watching) (seen : List (ℕ × ℕ))
    → IsBounded start.window
    → Run n start seen s
    → (b : ℕ) → start.position < b
    → b ≤ s.position
    → Covered b seen
watch-covers n start s seen bounded run b low high =
    (run-IsCovered n start s seen bounded run).covered b low high
  where
    run-IsCovered :
        (n : Network) (start s : Watching) (seen : List (ℕ × ℕ))
        → IsBounded start.window
        → Run n start seen s
        → IsCovered start s seen
    run-IsCovered n start _ _ bounded begun = record {
      bounded = bounded;
      covered = λ b low high. ground arith;
    }
    run-IsCovered n start _ _ bounded (round {seen = seen} {s = s} run e fine) =
        IsCovered-round n e start s seen fine (run-IsCovered n start s seen bounded run)
