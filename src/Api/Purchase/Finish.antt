-- ===== src/Api/Purchase/Finish.antt =====
-- What becomes of an order that is still reserved under the caller's claim when the suppliers have
-- answered.
use mathlib.Core.Path.{subst}
use naivolt.Base.{
  if◌then◌else◌, ℕ, ◌≡◌, refl, sym, ◌∙◌, Bool, true, false, Option, none, some, List, [], ◌∷◌, ◌++◌,
  ok, err, inl, inr, Bool-cases, arith,
}
use naivolt.Base.Int.{is_zero}
use naivolt.Base.Text.{Text, codes}
use naivolt.Ledger.Account.{Uuid}
use naivolt.Ledger.Post.{find_journal}
use naivolt.Watcher.Store.Owed.{IsNumbered}
use naivolt.Auth.Identifier.{trim, trim_start, trim_end}
use naivolt.Api.Error.{ApiError}
use naivolt.Api.Orders.{
  refunded_as, reserved, awaiting_code, review_required, failed, OrderRow, Source, OrdersDb,
  refund_failed, find_order, update_order, claim_is_current,
}
use naivolt.Api.Orders.Once.{find_order-update}
use naivolt.Api.Orders.Returns.{refund_key, Returned, apply_inner-Returned}
use naivolt.Api.Orders.Checks.{is_alerted}
use naivolt.Api.Purchase.Supply.{Activation, Bought, won, refused, unknown}
use naivolt.Api.Purchase.{
  is_reviewable, is_reserved, set_reviewable, set_reserved, Outcome, pinned_to, assigned_to,
  review_as, can_assign, can_review, mark_review_required, load_order, finish,
}

-- The answer is the row that is stored.
abbrev pub Answers : Outcome → OrderRow → Type 0
Answers out r = (out.answer ≡ ok r) × (find_order r.id out.books.orders ≡ some r)

-- What an order keeps whatever becomes of it.
abbrev pub SameOrder : OrderRow → OrderRow → Type 0
SameOrder r o =
    (r.id ≡ o.id)
    × (r.user_id ≡ o.user_id)
    × (r.idempotency_key ≡ o.idempotency_key)
    × (r.price_ngn ≡ o.price_ngn)

-- Won: the order has its number and waits for the code. Refused: it has failed, and its price was
-- returned. Unknown: an operator is told.
abbrev pub Finished : Bought → OrderRow → OrdersDb → Outcome → Type 0
Finished (won provider source a) o db out =
    (r : OrderRow) × Answers out r
    × SameOrder r o
    × (r.status ≡ awaiting_code)
    × (r.phone_number ≡ some a.phone)
    × (r.provider_order_id ≡ some a.provider_order_id)
    × (out.given_back ≡ none)
    × (out.books.ledger ≡ db.ledger)
Finished (refused e) o db out =
    (r : OrderRow) × (out.answer ≡ err e)
    × (find_order o.id out.books.orders ≡ some r)
    × SameOrder r o
    × (r.status ≡ failed)
    × Returned o db.ledger out.books.ledger
Finished unknown o db out =
    (r : OrderRow) × Answers out r
    × SameOrder r o
    × (r.status ≡ review_required)
    × (is_alerted o.id out.books.alerts ≡ true)
    × (out.books.ledger ≡ db.ledger)

pub load_order-found :
    (user : Uuid) (id : Uuid) (orders : List OrderRow) (o : OrderRow)
    → find_order id orders ≡ some o
    → user ≡ o.user_id
    → load_order user id orders ≡ ok o
unfolding load_order
load_order-found user id orders o found mine = rw (found, load_order) (ground arith)

is_alerted-snoc : (id : Uuid) (alerts : List Uuid) → is_alerted id (alerts ++ id ∷ []) ≡ true
unfolding is_alerted
is_alerted-snoc id [] = ground arith
is_alerted-snoc id (a ∷ alerts) = ground (arith, is_alerted-snoc id alerts)

can_assign-found :
    (id token : Uuid) (now : ℕ) (orders : List OrderRow) (o : OrderRow)
    → find_order id orders ≡ some o
    → o.status ≡ reserved
    → claim_is_current (some token) now o ≡ true
    → can_assign id token now orders ≡ true
unfolding can_assign
can_assign-found id token now orders o found open_ current =
    rw (found, can_assign, current, open_) refl

can_review-found :
    (id token : Uuid) (now : ℕ) (orders : List OrderRow) (o : OrderRow)
    → find_order id orders ≡ some o
    → o.status ≡ reserved
    → claim_is_current (some token) now o ≡ true
    → can_review id token now orders ≡ true
unfolding can_review
can_review-found id token now orders o found open_ current =
    rw (found, can_review, current, open_) refl

alerted :
    (id : Uuid) (alerts : List Uuid)
    → is_alerted id (if is_alerted id alerts then alerts else alerts ++ id ∷ []) ≡ true
alerted id alerts = elim (Bool-cases (is_alerted id alerts)) [
  | inl y ↦ rw (y, y) refl
  | inr z ↦ rw z (is_alerted-snoc id alerts)
]

-- An update with a test on the status, of a row that passes it.
set_reserved-found :
    (id : Uuid) (f : OrderRow → OrderRow) (orders : List OrderRow) (o : OrderRow)
    → ((r : OrderRow) → (f r).id ≡ r.id)
    → find_order id orders ≡ some o
    → o.status ≡ reserved
    → find_order id (set_reserved id f orders) ≡ some (f o)
unfolding set_reserved
set_reserved-found id f orders o same found open_ =
    let passes : is_reserved o.status ≡ true = rw open_ refl in
    rw passes at (
      find_order-update id (λ r. if is_reserved r.status then f r else r) orders {row = o}
        (λ r. elim (Bool-cases (is_reserved r.status)) [
          | inl y ↦ rw y (same r)
          | inr z ↦ rw z refl
        ])
        found)

set_reviewable-found :
    (id : Uuid) (f : OrderRow → OrderRow) (orders : List OrderRow) (o : OrderRow)
    → ((r : OrderRow) → (f r).id ≡ r.id)
    → find_order id orders ≡ some o
    → o.status ≡ reserved
    → find_order id (set_reviewable id f orders) ≡ some (f o)
unfolding set_reviewable
set_reviewable-found id f orders o same found open_ =
    let passes : is_reviewable o.status ≡ true = rw open_ refl in
    rw passes at (
      find_order-update id (λ r. if is_reviewable r.status then f r else r) orders {row = o}
        (λ r. elim (Bool-cases (is_reviewable r.status)) [
          | inl y ↦ rw y (same r)
          | inr z ↦ rw z refl
        ])
        found)

pinned-same :
    (provider : Text) (source : Option Source) (token : Uuid) (now : ℕ) (o : OrderRow)
    → let p = pinned_to provider source o in
      SameOrder p o
      × (p.status ≡ o.status)
      × (claim_is_current (some token) now p ≡ claim_is_current (some token) now o)
unfolding claim_is_current
pinned-same provider none token now o = ((refl, refl, refl, refl), refl, refl)
pinned-same provider (some s) token now o = ((refl, refl, refl, refl), refl, refl)

module _ (live : Bool) (token : Uuid) (now : ℕ) (db : OrdersDb) (o : OrderRow)
    (found : find_order o.id db.orders ≡ some o) (open_ : o.status ≡ reserved)
    (current : claim_is_current (some token) now o ≡ true) where
  finish-won :
      (provider : Text) (source : Option Source) (a : Activation)
      → Finished
          (won provider source a)
          o
          db
          (finish live o.user_id o.id token now (won provider source a) db)
  unfolding finish
  finish-won provider source a =
      let ((id, user, key, price), status, claim) = pinned-same provider source token now o in
      let p = pinned_to provider source o in
      let pinned = update_order o.id (pinned_to provider source) db.orders in
      let at_pinned : find_order o.id pinned ≡ some p =
        find_order-update o.id (pinned_to provider source) db.orders {row = o}
          (λ r. (pinned-same provider source token now r).0.0) found in
      let stored : find_order o.id (set_reserved o.id (assigned_to now a) pinned)
          ≡ some (assigned_to now a p) =
        set_reserved-found o.id (assigned_to now a) pinned p (λ r. refl) at_pinned
          (status ∙ open_) in
      rw (can_assign-found o.id token now pinned p at_pinned (status ∙ open_) (claim ∙ current)) (
        assigned_to now a p,
        (
          load_order-found o.user_id o.id _ (assigned_to now a p) stored (sym user),
          subst
              (λ z.
                find_order z (set_reserved o.id (assigned_to now a) pinned)
                ≡ some (assigned_to now a p))
              (sym id) stored,
        ),
        (id, user, key, price),
        refl,
        refl,
        refl,
        refl,
        refl,
      )

  marked-found : mark_review_required o.id token (codes "purchase_outcome_unknown") now db ≡ (
    ok tt,
    record db {
      orders = set_reviewable o.id (review_as now (codes "purchase_outcome_unknown")) db.orders;
      alerts = if is_alerted o.id db.alerts then db.alerts else db.alerts ++ o.id ∷ [];
    },
  )
  unfolding mark_review_required
  marked-found =
      rw (can_review-found o.id token now db.orders o found open_ current, mark_review_required)
        refl

  finish-unknown : Finished unknown o db (finish live o.user_id o.id token now unknown db)
  unfolding finish
  finish-unknown =
      let r = review_as now (codes "purchase_outcome_unknown") o in
      let stored =
        set_reviewable-found o.id (review_as now (codes "purchase_outcome_unknown")) db.orders o
          (λ r. refl) found open_ in
      let marked = marked-found in
      (
        r,
        (
          rw (marked, finish, marked) (load_order-found o.user_id o.id _ r stored refl),
          rw (marked, finish) stored,
        ),
        (refl, refl, refl, refl),
        refl,
        rw (marked, finish) (alerted o.id db.alerts),
        rw (marked, finish) refl,
      )

  finish-refused :
      (e : ApiError)
      → IsNumbered db.ledger
      → is_zero o.price_ngn ≡ false
      → find_journal (refund_key o) db.ledger.journals ≡ none
      → Finished (refused e) o db (finish live o.user_id o.id token now (refused e) db)
  unfolding finish trim trim_start trim_end
  finish-refused e n h free =
      let (journal, done, row, t) =
        apply_inner-Returned o.id o refund_failed (codes "supplier_rejected") (some token) now db
          found current (rw open_ refl) refl n h free in
      (
        refunded_as failed (codes "supplier_rejected") journal o,
        rw (done, finish) refl,
        row,
        (refl, refl, refl, refl),
        refl,
        t,
      )

  -- An order that is still reserved, under a claim that still runs when the suppliers have answered,
  -- ends in one of three ways. With a number it waits for the code, and nothing moves. Refused, it has
  -- failed and its price is back with the user. Without an answer it is left to an operator, who is
  -- alerted, and its price stays held.
  pub finish-ends :
      (bought : Bought)
      → IsNumbered db.ledger
      → is_zero o.price_ngn ≡ false
      → find_journal (refund_key o) db.ledger.journals ≡ none
      → Finished bought o db (finish live o.user_id o.id token now bought db)
  finish-ends (won provider source a) n h free = finish-won provider source a
  finish-ends (refused e) n h free = finish-refused e n h free
  finish-ends unknown n h free = finish-unknown
