-- ===== src/Api/Purchase/Keep.antt =====
-- A request for a number keeps the ledger balanced and the orders consistent.
use naivolt.Base.{
  ◌≢◌, length, ◌||◌, ◌&&◌, ℕ, ◌+◌, ◌≡◌, refl, true, false, Bool, Option, none, some, List,
  All-append, ok, if◌then◌else◌, inl, inr, Bool-cases, Option-cases, Result-cases, arith,
}
use naivolt.Base.Int.{ℤ, pos}
use naivolt.Base.Text.{Text, codes, to_lower, to_upper}
use naivolt.Ledger.Account.{Uuid, AccountKind, user_facing_balance}
use naivolt.Ledger.Journal.{Journal}
use naivolt.Ledger.Journal.Build.{IsSound, build_iff}
use naivolt.Ledger.Post.{LedgerDb, journal_id, post, balance}
use naivolt.Ledger.Post.Balance.{IsBalanced, post-IsBalanced}
use naivolt.Auth.Identifier.{trim_end, trim_start, trim}
use naivolt.Api.Naira.Transfer.{account_id-IsBalanced}
use naivolt.Api.Orders.{
  find_order, OrderRow, Source, OrdersDb, refund, refund_failed, update_order, is_money_open,
  OrderStatus, reserved, awaiting_code, review_required, delivered, failed, expired, cancelled,
  is_refunded,
}
use naivolt.Api.Orders.Once.{apply_inner-keeps}
use naivolt.Api.Orders.Consistent.{IsReviewed}
use naivolt.Api.Orders.Checks.Keep.{IsSettled, IsBalanced-next, update-IsSettled}
use naivolt.Api.Purchase.Shop.{SourceRow}
use naivolt.Api.Purchase.Quotes.{Config, Quote, quote}
use naivolt.Api.Purchase.Supply.{Suppliers, Bought, won, refused, unknown}
use naivolt.Api.Purchase.Request.{
  CreateOrderBody, Parsers, check_order, find_existing, same_request,
}
use naivolt.Api.Purchase.Hold.{
  reservation_key, hold_journal, is_reserving, is_referenced, insert_order,
}
use naivolt.Api.Purchase.{
  is_unclaimed, is_some, reference_of, not, ltb_ℤ, platform_account, lock_user_ngn_account, ShopDb,
  Others, repeated, held_for, is_reserved, is_reviewable, pinned_to, assigned_to, review_as,
  claimed_at, hold, reserve_order, claim_order, can_assign, can_review, set_reserved,
  set_reviewable, mark_review_required, finish, ask, buy_number, create_order,
}

-- An update that leaves the financial columns alone.
abbrev pub SameMoney : (OrderRow → OrderRow) → Type 0
SameMoney f =
    (r : OrderRow)
    → ((f r).status ≡ r.status)
      × ((f r).settled_journal_id ≡ r.settled_journal_id)
      × ((f r).refunded_journal_id ≡ r.refunded_journal_id)
      × ((f r).failure_reason ≡ r.failure_reason)
      × ((f r).review_required_at ≡ r.review_required_at)
      × ((f r).review_reason ≡ r.review_reason)

pub SameMoney-IsSettled :
    (id : Uuid) (f : OrderRow → OrderRow) (db : OrdersDb)
    → SameMoney f
    → IsSettled db
    → IsSettled (record db { orders = update_order id f db.orders })
SameMoney-IsSettled id f db same h =
    update-IsSettled id f db
      (λ r c.
        let (status, settled, refunded, reason, since, review) = same r in
        record {
          open_ = rw (status, settled, refunded, reason) c.open_;
          settled = rw (status, settled, refunded, reason) c.settled;
          refunded = rw (status, settled, refunded, reason) c.refunded;
          reviewed = rw (status, since, review) c.reviewed;
        })
      h

open_not_refunded : (s : OrderStatus) → is_money_open s ≡ true → is_refunded s ≡ false
open_not_refunded reserved e = refl
open_not_refunded awaiting_code e = refl
open_not_refunded review_required e = refl
open_not_refunded delivered e = absurd (ground arith)
open_not_refunded failed e = absurd (ground arith)
open_not_refunded expired e = absurd (ground arith)
open_not_refunded cancelled e = absurd (ground arith)

-- An update of rows whose status is open, to an open status.
pub open-IsSettled :
    (id : Uuid) (test : OrderRow → Bool) (f : OrderRow → OrderRow) (db : OrdersDb)
    → ((r : OrderRow) → test r ≡ true → is_money_open r.status ≡ true)
    → ((r : OrderRow)
        → (is_money_open (f r).status ≡ true)
          × ((f r).settled_journal_id ≡ r.settled_journal_id)
          × ((f r).refunded_journal_id ≡ r.refunded_journal_id)
          × ((f r).failure_reason ≡ r.failure_reason))
    → ((r : OrderRow) → IsReviewed (f r))
    → IsSettled db
    → IsSettled (record db { orders = update_order id (λ r. if test r then f r else r) db.orders })
open-IsSettled id test f db opens same reviewed h =
    update-IsSettled id (λ r. if test r then f r else r) db
      (λ r c. elim (Bool-cases (test r)) [
        | inr other ↦ rw other c
        | inl passes ↦
            let (open_, settled, refunded, reason) = same r in
            rw passes (record {
              open_ = λ e. rw (settled, refunded, reason) (c.open_ (opens r passes));
              settled = λ e. absurd (let k = rw e at open_ in ground arith);
              refunded = λ e. absurd (let k = open_not_refunded (f r).status open_ in ground arith);
              reviewed = reviewed r;
            })
      ])
      h

hold_journal-IsSound :
    (user_account pending : Uuid) (reference key : Text) (price : ℕ) (body : CreateOrderBody)
    {j : Journal}
    → hold_journal user_account pending reference key price body ≡ ok j
    → IsSound j.kind j.entries
unfolding hold_journal
hold_journal-IsSound user_account pending reference key price body {j} e =
    let (sound, same) = (build_iff _ j).0 e in rw same sound

insert_order-keeps :
    (journal user key : Uuid) (expected : Option ℤ) (reference : Text) (now : ℕ) (q : Quote)
    (l : LedgerDb) (db : OrdersDb)
    → IsSettled db
    → IsBalanced l
    → IsSettled (insert_order journal user key expected reference now q l db).1
unfolding insert_order
insert_order-keeps journal user key expected reference now q l db h balanced =
    elim (Bool-cases (is_reserving journal db.orders || is_referenced reference db.orders)) [
      | inl taken ↦ rw (taken, insert_order) h
      | inr absent ↦
          rw (absent, insert_order)
            (
              IsBalanced-next l balanced,
              All-append _ db.orders _ h.1 (
                record {
                  open_ = λ e. (refl, refl, refl);
                  settled = λ e. absurd (ground arith);
                  refunded = λ e. absurd (ground arith);
                  reviewed = λ e. absurd (ground arith);
                },
                tt,
              ),
            )
    ]

hold-keeps :
    (config : Config) (user key : Uuid) (body : CreateOrderBody) (expected : Option ℤ)
    (reference : Text) (now : ℕ) (q : Quote) (db : OrdersDb)
    → IsSettled db
    → IsSettled (hold config user key body expected reference now q db).1
unfolding hold
hold-keeps config user key body expected reference now q db h =
    let l₁ = (lock_user_ngn_account user db.ledger).1 in
    let user_account = (lock_user_ngn_account user db.ledger).0 in
    let pending = platform_account AccountKind.number_payable_pending l₁ in
    elim (Bool-cases (
      ltb_ℤ (user_facing_balance AccountKind.user_ngn (balance user_account l₁))
        (pos q.price_ngn))) [
          | inl poor ↦ rw poor h
          | inr covered ↦
              elim (Result-cases (
                hold_journal user_account pending.0 reference
                  (reservation_key config.order_keys_required user key) q.price_ngn body)) [
                    | inr (e, built) ↦ rw (covered, hold, built) h
                    | inl (j, built) ↦
                        rw (covered, hold, built)
                          (insert_order-keeps (journal_id (post j pending.1).0) user key expected
                            reference now q (post j pending.1).1 db h
                            (post-IsBalanced j pending.1
                              (hold_journal-IsSound user_account pending.0 reference
                                (reservation_key config.order_keys_required user key) q.price_ngn
                                body {j = j} built)
                              (account_id-IsBalanced AccountKind.number_payable_pending none l₁ (
                                account_id-IsBalanced AccountKind.user_ngn (some user) db.ledger
                                  h.0))))
                  ]
        ]

claim_order-keeps :
    (id : Uuid) (now : ℕ) (db : OrdersDb) → IsSettled db → IsSettled (claim_order id now db).1
unfolding claim_order
claim_order-keeps id now db h = elim (Option-cases (find_order id db.orders)) [
  | inl absent ↦ rw (absent, claim_order) h
  | inr (o, found) ↦
      elim (Bool-cases
        (is_reserved o.status && (not (is_some o.purchase_started_at) && is_unclaimed now o))) [
          | inr busy ↦ rw (found, claim_order) (rw busy h)
          | inl free ↦
              rw (found, claim_order)
                (rw free (
                  SameMoney-IsSettled id (claimed_at now db.ledger.next_id)
                    (record db { ledger = record db.ledger { next_id = db.ledger.next_id + 1 } })
                    (λ r. (refl, refl, refl, refl, refl, refl))
                    (IsBalanced-next db.ledger h.0, h.1)))
        ]
]

pub outcome_unknown-worded : length (trim (codes "purchase_outcome_unknown")) ≢ 0
unfolding trim trim_start trim_end
outcome_unknown-worded = λ e. ground arith

pub mark_review_required-keeps :
    (id token : Uuid) (reason : Text) (now : ℕ) (db : OrdersDb)
    → length (trim reason) ≢ 0
    → IsSettled db
    → IsSettled (mark_review_required id token reason now db).1
unfolding mark_review_required set_reviewable
mark_review_required-keeps id token reason now db worded h =
    elim (Bool-cases (can_review id token now db.orders)) [
      | inr stale ↦ rw stale h
      | inl fine ↦ rw fine (
          open-IsSettled id (λ r. is_reviewable r.status) (review_as now reason) db
            (λ r e. reviewable-open r.status e) (λ r. (refl, refl, refl, refl))
            (λ r e. (refl, (reason, refl, worded))) h)
    ]
  where
    reviewable-open : (s : OrderStatus) → is_reviewable s ≡ true → is_money_open s ≡ true
    reviewable-open s e = ground arith

finish-keeps :
    (live : Bool) (user id token : Uuid) (now : ℕ) (bought : Bought) (db : OrdersDb)
    → IsSettled db
    → IsSettled (finish live user id token now bought db).books
unfolding finish set_reserved
finish-keeps live user id token now (refused e) db h =
    apply_inner-keeps id (refund refund_failed (codes "supplier_rejected")) (some token) now db h.0
      h.1
finish-keeps live user id token now unknown db h =
    mark_review_required-keeps id token (codes "purchase_outcome_unknown") now db
      outcome_unknown-worded h
finish-keeps live user id token now (won provider source a) db h =
    let pinned = update_order id (pinned_to provider source) db.orders in
    let h₁ : IsSettled (record db { orders = pinned }) =
      SameMoney-IsSettled id (pinned_to provider source) db (pinned-SameMoney source) h in
    elim (Bool-cases (can_assign id token now pinned)) [
      | inr lost ↦ rw lost h₁
      | inl fine ↦ rw fine (
          open-IsSettled id (λ r. is_reserved r.status) (assigned_to now a)
            (record db { orders = pinned }) (λ r e. reserved-open r.status e)
            (λ r. (refl, refl, refl, refl)) (λ r e. absurd (ground arith)) h₁)
    ]
  where
    pinned-SameMoney : (s : Option Source) → SameMoney (pinned_to provider s)
    pinned-SameMoney none r = (refl, refl, refl, refl, refl, refl)
    pinned-SameMoney (some s) r = (refl, refl, refl, refl, refl, refl)

    reserved-open : (s : OrderStatus) → is_reserved s ≡ true → is_money_open s ≡ true
    reserved-open s e = ground arith

reserve_order-keeps :
    (config : Config) (user key : Uuid) (body : CreateOrderBody) (expected : Option ℤ)
    (reference : Text) (now : ℕ) (db : ShopDb)
    → IsSettled db.books
    → IsSettled (reserve_order config user key body expected reference now db).1
unfolding reserve_order
reserve_order-keeps config user key body expected reference now db h =
    elim (Option-cases (find_existing user key db.books.ledger.journals db.books.orders)) [
      | inr (o, known) ↦ elim (Bool-cases (same_request body expected o)) [
        | inl same ↦
            rw (known, reserve_order, same)
              (account_id-IsBalanced AccountKind.user_ngn (some user) db.books.ledger h.0, h.1)
        | inr other ↦ rw (known, reserve_order, other) h
      ]
      | inl unused ↦
          elim (Result-cases (
            quote config db.catalog db.books.orders now body.offer_id
              (to_lower (trim body.product_slug)) (to_upper (trim body.country_code)) expected)) [
                | inr (e, q) ↦ rw (unused, reserve_order, q) h
                | inl (quoted, q) ↦
                    let k =
                      hold-keeps config user key body expected reference now quoted db.books h in
                    elim (Result-cases
                      (hold config user key body expected reference now quoted db.books).0) [
                        | inr (e, r) ↦ rw (unused, reserve_order, q, r) k
                        | inl (o, r) ↦ rw (unused, reserve_order, q, r) k
                      ]
              ]
    ]

-- Other transactions that keep what is settled.
abbrev pub Keeps : Others → Type 0
Keeps others =
    ((db : OrdersDb) → IsSettled db → IsSettled (others.before_claim db))
    × ((db : OrdersDb) → IsSettled db → IsSettled (others.before_answer db))

buy_number-keeps :
    (config : Config) (suppliers : Suppliers) (others : Others) (user : Uuid) (o : OrderRow)
    (q : Quote) (now later : ℕ) (db : OrdersDb) (rows : List SourceRow)
    → Keeps others
    → IsSettled db
    → IsSettled (buy_number config suppliers others user o q now later db rows).0.books
unfolding buy_number
buy_number-keeps config suppliers others user o q now later db rows keeps h =
    let claimed = claim_order o.id now (others.before_claim db) in
    let c = claim_order-keeps o.id now (others.before_claim db) (keeps.0 db h) in
    elim (Option-cases claimed.0) [
      | inl lost ↦ rw (lost, buy_number) c
      | inr (token, won_) ↦
          rw (won_, buy_number)
            (finish-keeps config.numbers_is_live user o.id token later (ask suppliers q rows).0
              (others.before_answer claimed.1) (keeps.1 claimed.1 c))
    ]

-- A request for a number, whatever it asks for, whatever the suppliers answer, and whatever other
-- transactions that do so too do meanwhile, keeps the ledger balanced and the financial state of every
-- order consistent.
pub create_order-keeps :
    (parsers : Parsers) (config : Config) (suppliers : Suppliers) (others : Others) (user : Uuid)
    (header : Option Text) (body : CreateOrderBody) (code : Text) (now later : ℕ) (db : ShopDb)
    → Keeps others
    → IsSettled db.books
    → IsSettled
        (create_order parsers config suppliers others user header body code now later db).0.books
unfolding create_order
create_order-keeps parsers config suppliers others user header body code now later db keeps h =
    elim (Result-cases (check_order parsers config header body)) [
      | inr (e, q) ↦ rw (q, create_order) h
      | inl ((key, expected), q) ↦
          let result = reserve_order config user key body expected (reference_of code) now db in
          let k = reserve_order-keeps config user key body expected (reference_of code) now db h in
          elim (Result-cases result.0) [
            | inr (e, r) ↦ rw (q, create_order, r) k
            | inl (repeated id, r) ↦ rw (q, create_order, r) k
            | inl (held_for o quoted, r) ↦
                rw (q, create_order, r)
                  (buy_number-keeps config suppliers others user o quoted now later result.1
                    db.catalog.sources keeps k)
          ]
    ]
