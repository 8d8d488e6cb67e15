-- ===== src/Api/Purchase/Ends.antt =====
-- A new order from its reservation to the suppliers' answer, when no other transaction touches it.
use mathlib.Core.Path.{subst}
use naivolt.Base.{ℕ, ◌+◌, ◌<◌, ◌≡◌, refl, ap, ◌∙◌, Option, none, some, List, ◌++◌, Result, err}
use naivolt.Base.Int.{ℤ, pos, neg, ◌+ℤ◌}
use naivolt.Base.Text.{Text, codes}
use naivolt.Ledger.Account.{Uuid, AccountKind}
use naivolt.Ledger.Post.{find_journal}
use naivolt.Ledger.Post.Replay.{find_journal-append}
use naivolt.Api.Naira.Held.{held}
use naivolt.Api.Naira.Transfer.{Opened, Transferred, draw-Opened, moved}
use naivolt.Api.Orders.{awaiting_code, review_required, failed, OrderRow, OrdersDb, find_order}
use naivolt.Api.Orders.Returns.{Returned}
use naivolt.Api.Orders.Checks.{is_alerted}
use naivolt.Api.Purchase.Shop.{SourceRow}
use naivolt.Api.Purchase.Quotes.{Config, Quote}
use naivolt.Api.Purchase.Supply.{Suppliers, Bought, won, refused, unknown}
use naivolt.Api.Purchase.Hold.{reservation_key}
use naivolt.Api.Purchase.Holding.{IsDrawn, Ordered}
use naivolt.Api.Purchase.Finish.{Finished, Answers, SameOrder}
use naivolt.Api.Purchase.Buys.{buy_number-Finished}
use naivolt.Api.Purchase.Claims.{alone, refund_key-other, moved_back}
use naivolt.Api.Purchase.{ApiError, true, Outcome, claimed_at, ask, buy_number, reference_of}

-- The price of an order is held: the user is owed that much less, and that much is held for orders.
abbrev pub IsHeld : OrderRow → OrdersDb → OrdersDb → Type 0
IsHeld o db after =
    (k : AccountKind) (u : Option Uuid)
    → held k u after.ledger
      ≡ held k u db.ledger
        +ℤ moved AccountKind.user_ngn (some o.user_id) o.price_ngn
            AccountKind.number_payable_pending none (neg o.price_ngn) k u

-- With a number: the order waits for the code, and its price is held. Refused: it has failed, and
-- everybody holds what they held. Unknown: an operator is alerted, and its price is held.
abbrev pub Ended : Bought → OrderRow → OrdersDb → Outcome → Type 0
Ended (won provider source a) o db out =
    (r : OrderRow) × Answers out r
    × SameOrder r o
    × (r.status ≡ awaiting_code)
    × (r.phone_number ≡ some a.phone)
    × IsHeld o db out.books
Ended (refused e) o db out =
    (r : OrderRow) × (out.answer ≡ err e)
    × (find_order o.id out.books.orders ≡ some r)
    × SameOrder r o
    × (r.status ≡ failed)
    × ((k : AccountKind) (u : Option Uuid) → held k u out.books.ledger ≡ held k u db.ledger)
Ended unknown o db out =
    (r : OrderRow) × Answers out r
    × SameOrder r o
    × (r.status ≡ review_required)
    × (is_alerted o.id out.books.alerts ≡ true)
    × IsHeld o db out.books

Finished-Ended :
    (bought : Bought) (o : OrderRow) (now token : ℕ) (db claimed : OrdersDb) (out : Outcome)
    → IsHeld o db claimed
    → Finished bought (claimed_at now token o) claimed out
    → Ended bought o db out
Finished-Ended (won provider source a) o now token db claimed out h f =
    let (r, answers, same, status, phone, number, kept, ledger) = f in
    (r, answers, same, status, phone, λ k u. rw ledger (h k u))
Finished-Ended (refused e) o now token db claimed out h f =
    let (r, told, found, same, status, t) = f in
    (
      r,
      told,
      found,
      same,
      status,
      λ k u.
          t.now_held k u
          ∙ rw (h k u) (moved_back k u (some o.user_id) o.price_ngn (held k u db.ledger)),
    )
Finished-Ended unknown o now token db claimed out h f =
    let (r, answers, same, status, alerted, ledger) = f in
    (r, answers, same, status, alerted, λ k u. rw ledger (h k u))

Finished-refused :
    (bought : Bought) (e : ApiError) (o : OrderRow) (db : OrdersDb) (out : Outcome)
    → bought ≡ refused e
    → Finished bought o db out
    → Returned o db.ledger out.books.ledger
Finished-refused bought e o db out same f =
    let (r, told, found, order, status, t) = subst (λ b. Finished b o db out) same f in t

module _ (config : Config) (suppliers : Suppliers) (user key : Uuid) (expected : Option ℤ)
    (code : Text) (now later : ℕ) (q : Quote) (db : OrdersDb)
    (result : Result ApiError OrderRow × OrdersDb) (h : IsDrawn db)
    (ordered : Ordered user key expected (reference_of code) now q db result)
    (positive : 0 < q.price_ngn) (soon : later < now + 60000)
    (free : find_journal (reference_of code ++ codes ":refund") db.ledger.journals ≡ none)
    (rows : List SourceRow) where
  abbrev end : Outcome × List SourceRow
  end = buy_number config suppliers alone user ordered.order q now later result.1 rows

  module _
      (t : Transferred db.ledger result.1.ledger AccountKind.user_ngn
        (some user)
        (pos q.price_ngn)
        AccountKind.number_payable_pending
        none
        (neg (pos q.price_ngn))
        (reservation_key config.order_keys_required user key)) where
    unrefunded : find_journal (reference_of code ++ codes ":refund") result.1.ledger.journals ≡ none
    unrefunded =
        rw
          (
            t.journals,
            find_journal-append (reference_of code ++ codes ":refund") db.ledger.journals t.row
                free,
            t.keyed,
            refund_key-other config.order_keys_required user key code,
          )
          refl

    -- A new order whose price was held ends as the suppliers answer.
    pub held-Ended : Ended (ask suppliers q rows).0 ordered.order db end.0
    held-Ended =
        let (f, s) =
          buy_number-Finished config suppliers user key expected code now later q db result h
            ordered t.numbered positive soon unrefunded rows in
        Finished-Ended (ask suppliers q rows).0 ordered.order now result.1.ledger.next_id db _ end.0
          (λ k u.
            rw (ap (λ z. z.user_id) ordered.made, ap (λ z. z.price_ngn) ordered.made)
              ((draw-Opened result.1.ledger).same_held t.numbered k u ∙ t.now_held k u))
          f

  -- A new order for which nothing was held, and which the suppliers refuse, is refunded all the same.
  pub unfunded-Refunded :
      (e : ApiError)
      → Opened db.ledger result.1.ledger
      → (ask suppliers q rows).0 ≡ refused e
      → (k : AccountKind) (u : Option Uuid)
      → held k u end.0.books.ledger
        ≡ held k u db.ledger
          +ℤ moved AccountKind.number_payable_pending none
              (pos q.price_ngn)
              AccountKind.user_ngn
              (some user)
              (neg (pos q.price_ngn))
              k
              u
  unfunded-Refunded e opened refusal k u =
      let n = opened.numbered h.numbered in
      let (f, s) =
        buy_number-Finished config suppliers user key expected code now later q db result h ordered
          n positive soon (rw opened.journals free) rows in
      let t =
        Finished-refused (ask suppliers q rows).0 e
          (claimed_at now result.1.ledger.next_id ordered.order) _ end.0 refusal f in
      t.now_held k u
      ∙ ap
          (λ x.
            x
            +ℤ moved AccountKind.number_payable_pending none ordered.order.price_ngn
                AccountKind.user_ngn (some ordered.order.user_id) (neg ordered.order.price_ngn) k u)
          ((draw-Opened result.1.ledger).same_held n k u ∙ opened.same_held h.numbered k u)
      ∙ ap
          (λ o.
            held k u db.ledger
            +ℤ moved AccountKind.number_payable_pending none o.price_ngn AccountKind.user_ngn
                (some o.user_id) (neg o.price_ngn) k u)
          ordered.made
