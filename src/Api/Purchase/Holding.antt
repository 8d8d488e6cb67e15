-- ===== src/Api/Purchase/Holding.antt =====
-- What holding the price of an order does, on each of its branches.
use naivolt.Base.{
  ℕ, ◌+◌, ◌<◌, ◌≤◌, ◌≡◌, refl, true, false, Option, none, some, List, [], ◌∷◌, ◌++◌, All, Result,
  ok, err, arith,
}
use naivolt.Base.Int.{ℤ, pos, neg, ltb_ℤ, neg_parts, +ℤ-neg}
use naivolt.Base.Text.{Text}
use naivolt.Ledger.Account.{Uuid, AccountKind}
use naivolt.Ledger.Journal.{Journal, new, entry, with_metadata, is_custody_only}
use naivolt.Ledger.Journal.Build.{IsSound}
use naivolt.Ledger.Post.{LedgerDb, JournalRow, journal_id, find_journal, post}
use naivolt.Ledger.Post.Replay.{post_old}
use naivolt.Watcher.Store.Owed.{IsNumbered}
use naivolt.Api.Error.{ApiError}
use naivolt.Api.Naira.Held.{held}
use naivolt.Api.Naira.Transfer.{
  Opened, Opened-trans, Transferred, pair, draw-Opened, Transferred-Opened,
}
use naivolt.Api.Naira.Sound.{build-pair}
use naivolt.Api.Naira.Solvent.{available}
use naivolt.Api.Naira.Debit.{opened_for, opened_for-Opened, debit-new}
use naivolt.Api.Orders.{OrderRow, OrdersDb}
use naivolt.Api.Purchase.Quotes.{Config, Quote}
use naivolt.Api.Purchase.Request.{CreateOrderBody}
use naivolt.Api.Purchase.Hold.{
  reservation_key, hold_journal, new_order, is_reserving, is_referenced, insert_order,
}
use naivolt.Api.Purchase.{hold}

-- Ids of accounts, of orders and of the journals that orders name have been drawn.
pub record IsDrawn (db : OrdersDb) : Type 0 where
  pub numbered : IsNumbered db.ledger
  pub ids_drawn : All (λ o. o.id < db.ledger.next_id) db.orders
  pub journals_drawn : All (λ o. o.reserved_journal_id < db.ledger.next_id) db.orders

hold_journal-ok :
    (user_account pending : Uuid) (reference key : Text) (price : ℕ) (body : CreateOrderBody)
    → 0 < price
    → (j : Journal) × (hold_journal user_account pending reference key price body ≡ ok j)
      × (j.idempotency_key ≡ key)
      × (j.entries
          ≡ pair user_account AccountKind.user_ngn
              (pos price)
              pending
              AccountKind.number_payable_pending
              (neg (pos price)))
      × IsSound j.kind j.entries
unfolding hold_journal new entry with_metadata is_custody_only
hold_journal-ok user_account pending reference key price body h =
    let (built, sound) =
      build-pair _ user_account pending AccountKind.user_ngn AccountKind.number_payable_pending
        (pos price) (neg (pos price)) refl refl (ground arith)
        (ground (arith, neg_parts (pos price))) (+ℤ-neg (pos price)) in
    (_, built, refl, refl, sound)

is_reserving-drawn :
    (n : ℕ) (orders : List OrderRow)
    → All (λ o. o.reserved_journal_id < n) orders
    → (m : ℕ) → n ≤ m
    → is_reserving m orders ≡ false
unfolding is_reserving
is_reserving-drawn n [] h m le = refl
is_reserving-drawn n (o ∷ orders) h m le = ground (arith, is_reserving-drawn n orders h.1 m le)

-- A price that the balance does not cover is refused without a change.
pub hold-poor :
    (config : Config) (user key : Uuid) (body : CreateOrderBody) (expected : Option ℤ)
    (reference : Text) (now : ℕ) (q : Quote) (db : OrdersDb)
    → IsNumbered db.ledger
    → ltb_ℤ (neg (held AccountKind.user_ngn (some user) db.ledger)) (pos q.price_ngn) ≡ true
    → hold config user key body expected reference now q db
      ≡ (err ApiError.insufficient_balance, db)
unfolding hold
hold-poor config user key body expected reference now q db n poor =
    rw (available user db.ledger n, hold, poor) refl

-- An order of a user, for what was quoted, that comes last in the table.
pub record Ordered (user key : Uuid) (expected : Option ℤ) (reference : Text) (now : ℕ) (q : Quote)
    (db : OrdersDb) (result : Result ApiError OrderRow × OrdersDb) : Type 0 where
  pub order : OrderRow
  pub told : result.0 ≡ ok order
  pub made : order ≡ new_order order.id user key expected reference now q order.reserved_journal_id
  pub tables : result.1 ≡ record db { ledger = result.1.ledger; orders = db.orders ++ order ∷ [] }
  pub fresh : db.ledger.next_id ≤ order.id
  pub drawn : order.id < result.1.ledger.next_id

module _ (config : Config) (user key : Uuid) (body : CreateOrderBody) (expected : Option ℤ)
    (reference : Text) (now : ℕ) (q : Quote) (db : OrdersDb) (h : IsDrawn db)
    (positive : 0 < q.price_ngn)
    (covered : ltb_ℤ (neg (held AccountKind.user_ngn (some user) db.ledger)) (pos q.price_ngn)
      ≡ false)
    (unnamed : is_referenced reference db.orders ≡ false) where
  abbrev pub ledger_key : Text
  ledger_key = reservation_key config.order_keys_required user key

  abbrev opening : Uuid × (Uuid × LedgerDb)
  opening = opened_for user AccountKind.number_payable_pending db.ledger

  inserted :
      (journal : Uuid) (l : LedgerDb)
      → is_reserving journal db.orders ≡ false
      → db.ledger.next_id ≤ l.next_id
      → let result = insert_order journal user key expected reference now q l db in
        Ordered user key expected reference now q db result
        × (result.1.ledger ≡ record l { next_id = l.next_id + 1 })
  unfolding insert_order
  inserted journal l absent le =
      rw (absent, unnamed, insert_order)
        (
          record {
            order = new_order l.next_id user key expected reference now q journal;
            told = refl;
            made = refl;
            tables = refl;
            fresh = le;
            drawn = omega arith;
          },
          refl,
        )

  hold-posts :
      (j : Journal)
      → hold_journal opening.0 opening.1.0 reference ledger_key q.price_ngn body ≡ ok j
      → hold config user key body expected reference now q db
        ≡ insert_order
            (journal_id (post j opening.1.1).0)
            user
            key
            expected
            reference
            now
            q
            (post j opening.1.1).1
            db
  unfolding hold
  hold-posts j built = rw (available user db.ledger h.numbered, hold, covered, built, hold) refl

  -- Under a new key the price goes from what the user is owed to what is held for orders, and the order
  -- is recorded.
  pub hold-new :
      find_journal ledger_key db.ledger.journals ≡ none
      → let result = hold config user key body expected reference now q db in
        Ordered user key expected reference now q db result
        × Transferred db.ledger result.1.ledger AccountKind.user_ngn
            (some user)
            (pos q.price_ngn)
            AccountKind.number_payable_pending
            none
            (neg (pos q.price_ngn))
            ledger_key
  hold-new free =
      let l = db.ledger in
      let opened = opening.1.1 in
      let o = opened_for-Opened user AccountKind.number_payable_pending l in
      let (j, built, keyed, shape, sound) =
        hold_journal-ok opening.0 opening.1.0 reference ledger_key q.price_ngn body positive in
      let (id, next, t) =
        debit-new user AccountKind.number_payable_pending l (pos q.price_ngn)
          (neg (pos q.price_ngn)) j h.numbered shape sound (rw keyed free) in
      let absent : is_reserving (journal_id (post j opened).0) db.orders ≡ false =
        rw id (is_reserving-drawn l.next_id db.orders h.journals_drawn opened.next_id o.grows) in
      let (ordered, ledger) =
        inserted (journal_id (post j opened).0) (post j opened).1 absent
          (rw next (omega (arith, o.grows))) in
      rw (hold-posts j built) (
        ordered,
        rw ledger (
            Transferred-Opened l (post j opened).1 _ AccountKind.user_ngn
              AccountKind.number_payable_pending (some user) none (pos q.price_ngn)
              (neg (pos q.price_ngn)) ledger_key (rw keyed at t) (draw-Opened (post j opened).1)),
      )

  -- Under a key whose journal holds for no order, the order is recorded and nothing moves.
  pub hold-unfunded :
      (row : JournalRow)
      → find_journal ledger_key db.ledger.journals ≡ some row
      → is_reserving row.id db.orders ≡ false
      → let result = hold config user key body expected reference now q db in
        Ordered user key expected reference now q db result × Opened db.ledger result.1.ledger
  hold-unfunded row taken absent =
      let l = db.ledger in
      let opened = opening.1.1 in
      let o = opened_for-Opened user AccountKind.number_payable_pending l in
      let (j, built, keyed, shape, sound) =
        hold_journal-ok opening.0 opening.1.0 reference ledger_key q.price_ngn body positive in
      let old : find_journal j.idempotency_key opened.journals ≡ some row =
        rw (keyed, o.journals) taken in
      let (ordered, ledger) = inserted row.id opened absent o.grows in
      rw (hold-posts j built, post_old j opened {r = row} old)
        (ordered, rw ledger (Opened-trans l opened _ o (draw-Opened opened)))
