-- ===== src/Api/Purchase/Buys.antt =====
-- A new order that no other transaction touches, from its row to the suppliers' answer.
use mathlib.Core.Path.{subst}
use naivolt.Base.{ℕ, ◌+◌, ◌<◌, ◌≡◌, refl, ap, ◌∙◌, Option, none, some, List, ◌++◌, Result, arith}
use naivolt.Base.Int.{ℤ, pos}
use naivolt.Base.Text.{Text, codes}
use naivolt.Ledger.Account.{Uuid}
use naivolt.Ledger.Post.{find_journal}
use naivolt.Watcher.Store.Owed.{IsNumbered}
use naivolt.Api.Naira.Transfer.{draw-Opened}
use naivolt.Api.Orders.{reserved, OrderRow, OrdersDb, find_order, update_order}
use naivolt.Api.Orders.Once.{find_order-update}
use naivolt.Api.Purchase.Shop.{SourceRow}
use naivolt.Api.Purchase.Quotes.{Config, Quote}
use naivolt.Api.Purchase.Supply.{Suppliers}
use naivolt.Api.Purchase.Holding.{IsDrawn, Ordered}
use naivolt.Api.Purchase.Finish.{Finished, finish-ends}
use naivolt.Api.Purchase.Claims.{alone, find_order-snoc, claim_order-found, claimed-current}
use naivolt.Api.Purchase.{ApiError, claimed_at, ask, finish, buy_number, reference_of}

module _ (config : Config) (suppliers : Suppliers) (user key : Uuid) (expected : Option ℤ)
    (code : Text) (now later : ℕ) (q : Quote) (db : OrdersDb)
    (result : Result ApiError OrderRow × OrdersDb) (h : IsDrawn db)
    (ordered : Ordered user key expected (reference_of code) now q db result)
    (numbered : IsNumbered result.1.ledger) (positive : 0 < q.price_ngn)
    (soon : later < now + 60000)
    (free : find_journal (reference_of code ++ codes ":refund") result.1.ledger.journals
      ≡ none) where
  abbrev o : OrderRow
  o = ordered.order

  abbrev token : Uuid
  token = result.1.ledger.next_id

  -- The tables after the claim.
  abbrev pub claimed : OrdersDb
  claimed = record result.1 {
    ledger = record result.1.ledger { next_id = token + 1 };
    orders = update_order o.id (claimed_at now token) result.1.orders;
  }

  pub user_same : o.user_id ≡ user
  user_same = ap (λ z. z.user_id) ordered.made

  pub price_same : o.price_ngn ≡ pos q.price_ngn
  price_same = ap (λ z. z.price_ngn) ordered.made

  there : find_order o.id result.1.orders ≡ some o
  there =
      ap (λ z. find_order o.id z.orders) ordered.tables
      ∙ find_order-snoc db.ledger.next_id db.orders o h.ids_drawn ordered.fresh

  -- It is finished as the suppliers answer.
  pub buy_number-Finished :
      (rows : List SourceRow)
      → let end = buy_number config suppliers alone user o q now later result.1 rows in
        Finished (ask suppliers q rows).0 (claimed_at now token o) claimed end.0
        × (end.1 ≡ (ask suppliers q rows).1)
  unfolding buy_number
  buy_number-Finished rows =
      let bought = (ask suppliers q rows).0 in
      let status : o.status ≡ reserved = ap (λ z. z.status) ordered.made in
      let c = claimed_at now token o in
      let found : find_order o.id claimed.orders ≡ some c =
        find_order-update o.id (claimed_at now token) result.1.orders {row = o} (λ r. refl) there in
      let reference : o.reference ≡ reference_of code = ap (λ z. z.reference) ordered.made in
      let f =
        finish-ends config.numbers_is_live token later claimed c found status
          (claimed-current token now later o soon) bought
          ((draw-Opened result.1.ledger).numbered numbered) (rw price_same (ground arith))
          (rw reference free) in
      let claim =
        claim_order-found o.id now result.1 o there status
          (ap (λ z. z.purchase_started_at) ordered.made)
          (ap (λ z. z.reconcile_claimed_until) ordered.made) in
      rw (claim, buy_number, claim)
        (
          subst
              (λ u.
                Finished bought c claimed
                  (finish config.numbers_is_live u o.id token later bought claimed))
              user_same f,
          refl,
        )
