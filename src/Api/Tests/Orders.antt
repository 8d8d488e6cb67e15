-- ===== src/Api/Tests/Orders.antt =====
-- Instances of the theorems about orders.
use naivolt.Base.{◌*◌, ◌≡◌, refl, true, none, some, [], ◌∷◌, ok, arith}
use naivolt.Base.Int.{pos, neg, ◌+ℤ◌, unit}
use naivolt.Base.Sums.{sum_where}
use naivolt.Base.Text.{Text, codes}
use naivolt.Core.Asset.{Asset, asset_index}
use naivolt.Ledger.Account.{Uuid, AccountKind, kind_index}
use naivolt.Ledger.Journal.{
  new, entry, with_metadata, build, sum_entries, add_to, check_sums, check_custody, is_custody_only,
}
use naivolt.Ledger.Post.{LedgerDb, find_journal, post, balance}
use naivolt.Ledger.Post.Balance.{IsBalanced, journal_total, asset_total}
use naivolt.Watcher.Store.{account_id, find_account}
use naivolt.Auth.Identifier.{trim, trim_start, trim_end}
use naivolt.Api.Orders.{
  awaiting_code, delivered, OrderRow, Sms, OrdersDb, OrderTransition, deliver, refund,
  refund_cancelled, applied, find_order, claim_is_current, refund_journal, post_refund, refund_open,
  move_open, apply_inner,
}
use naivolt.Api.Orders.Consistent.{IsConsistent}
use naivolt.Api.Orders.Once.{Refused, apply_inner_once}
use naivolt.Api.Orders.Refunds.{refunded_by, refund_open-returns}
use naivolt.Api.Orders.Checks.{ActivationCheck, lifecycle_open, apply_check}
use naivolt.Api.Orders.Checks.Keep.{IsSettled, apply_check-keeps}
use naivolt.Api.Orders.Checks.Closed.{SameBooks, apply_check-closed}

abbrev pub waiting : OrderRow
waiting = record {
  id = 1;
  user_id = 7;
  price_ngn = pos (900 * unit);
  reference = codes "num-1";
  status = awaiting_code;
  provider_order_id = some (codes "p1");
  created_at = 1000;
  expires_at = some 900000;
  failure_reason = none;
  sms_code = none;
  sms_text = none;
  received_at = none;
  settled_journal_id = none;
  refunded_journal_id = none;
  activation_open = true;
  review_reason = none;
  review_required_at = none;
  reconcile_next_at = none;
  reconcile_claim_token = none;
  reconcile_claimed_until = none;
  reserved_journal_id = 3;
  product_slug = codes "whatsapp";
  country_code = codes "GB";
  idempotency_key = some 77;
  expected_price_ngn = none;
  payload_complete = true;
  offer_id = none;
  provider = codes "5sim";
  source = none;
  phone_number = none;
  purchase_started_at = some 1000;
  reconciliation_payload_complete = true;
}

abbrev delivered_order : OrderRow
delivered_order = record waiting { status = delivered; settled_journal_id = some 30 }

abbrev pub empty_ledger : LedgerDb
empty_ledger = record { accounts = []; journals = []; entries = []; next_id = 20 }

abbrev pub db_of : OrderRow → OrdersDb
db_of o = record { ledger = empty_ledger; orders = o ∷ []; messages = []; alerts = [] }

abbrev cancelling : OrderTransition
cancelling = refund refund_cancelled (codes "cancelled by user")

first_refund :
    (refund_open waiting refund_cancelled (codes "cancelled by user") (db_of waiting)).0
    ≡ ok applied
unfolding refund_open post_refund refund_journal new entry with_metadata build sum_entries add_to
    check_sums check_custody is_custody_only account_id find_account trim trim_start trim_end
    find_journal post asset_index kind_index ◌+ℤ◌ neg
first_refund = refl

refund_open-returns_example :
    (let after =
        (refund_open waiting refund_cancelled
          (codes "cancelled by user")
          (db_of waiting)).1.ledger in
      (pending : Uuid) × (user : Uuid) × (find_account AccountKind.number_payable_pending none
          Asset.ngn after.accounts
        ≡ some pending)
      × (find_account AccountKind.user_ngn (some 7) Asset.ngn after.accounts ≡ some user)
      × ((account : Uuid)
          → balance account after
            ≡ balance account empty_ledger +ℤ refunded_by pending user (pos (900 * unit)) account))
unfolding find_journal
refund_open-returns_example =
    refund_open-returns waiting refund_cancelled (codes "cancelled by user") (db_of waiting)
      first_refund refl

first_transition : (apply_inner 1 cancelling none 5000 (db_of waiting)).0 ≡ ok applied
unfolding apply_inner find_order claim_is_current move_open refund_open post_refund refund_journal
    new entry with_metadata build sum_entries add_to check_sums check_custody is_custody_only
    account_id find_account trim trim_start trim_end find_journal post asset_index kind_index ◌+ℤ◌
    neg
first_transition = refl

apply_inner_once_example : Refused (apply_inner 1 cancelling none 5000 (db_of waiting)).1 (
    apply_inner 1
      (deliver (codes "1234") (codes "code 1234"))
      none
      6000
      (apply_inner 1 cancelling none 5000 (db_of waiting)).1)
apply_inner_once_example =
    apply_inner_once 1 cancelling (deliver (codes "1234") (codes "code 1234")) none none 5000 6000
      (db_of waiting) first_transition

pub empty-IsBalanced : IsBalanced empty_ledger
unfolding journal_total asset_total sum_where
empty-IsBalanced = record { numbered = tt; by_journal = λ id a. refl; by_asset = λ a. refl }

pub waiting-IsConsistent : IsConsistent waiting
waiting-IsConsistent = record {
  open_ = λ e. (refl, refl, refl);
  settled = λ e. absurd (ground arith);
  refunded = λ e. absurd (ground arith);
  reviewed = λ e. absurd (ground arith);
}

-- A message with a code, and an activation that goes on.
abbrev pub arrived : ActivationCheck
arrived = record {
  messages =
      record {
        sender = none;
        text = codes "code 1234";
        code = some (codes "1234");
        received_at = none;
        provider_message_id = some (codes "m1");
      }
      ∷ [];
  lifecycle = lifecycle_open;
  expires_at = none;
}

abbrev pub by_text : Text → Sms → Text
by_text provider_order_id m = m.text

apply_check-keeps_example : IsSettled (apply_check by_text 1 none arrived 5000 (db_of waiting)).1
apply_check-keeps_example =
    apply_check-keeps by_text 1 none arrived 5000 (db_of waiting)
      (empty-IsBalanced, (waiting-IsConsistent, tt))

apply_check-closed_example :
    SameBooks empty_ledger
      (apply_check by_text 1 none arrived 5000 (db_of delivered_order)).1.ledger
unfolding find_order
apply_check-closed_example =
    apply_check-closed by_text 1 none arrived 5000 (db_of delivered_order) delivered_order refl refl
