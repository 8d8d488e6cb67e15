-- ===== src/Api/Tests/Reconcile.antt =====
-- Instances of the theorems about the reconciler and about cancellations: an order awaits its code.
use naivolt.Base.{◌≡◌, refl, true, none, some, [], ◌∷◌, arith}
use naivolt.Base.Text.{codes}
use naivolt.Ledger.Post.{find_journal}
use naivolt.Watcher.Store.Owed.{IsNumbered}
use naivolt.Api.Orders.{find_order}
use naivolt.Api.Orders.Messages.{any_message}
use naivolt.Api.Orders.Checks.{ActivationCheck, lifecycle_open}
use naivolt.Api.Orders.Checks.Keep.{IsSettled}
use naivolt.Api.Reconcile.{ReconcilerDb, Answers, sweep}
use naivolt.Api.Reconcile.Keep.{sweep-keeps}
use naivolt.Api.Cancel.{Suppliers, is_cancellable, cancel_order}
use naivolt.Api.Cancel.Keep.{cancel_order-keeps}
use naivolt.Api.Cancel.Refunds.{Cancelled, cancel_order-refunds}
use naivolt.Api.Tests.Orders.{
  waiting, empty_ledger, db_of, by_text, arrived, empty-IsBalanced, waiting-IsConsistent,
}

abbrev settled : IsSettled (db_of waiting)
settled = (empty-IsBalanced, (waiting-IsConsistent, tt))

abbrev answers : Answers
answers = record {
  check_for = λ provider id. some arrived;
  recover_activation = λ country product. none;
}

abbrev reconciler : ReconcilerDb
reconciler = record {
  books = db_of waiting;
  slots = record { slot = 1; claim_token = none; claimed_until = none } ∷ [];
  given_back = [];
}

sweep-keeps_example :
    IsSettled (sweep answers by_text (λ o. codes "england") (λ o. 0) 5000 6000 reconciler).books
sweep-keeps_example =
    sweep-keeps answers by_text (λ o. codes "england") (λ o. 0) 5000 6000 reconciler settled

-- The supplier has nothing for the order, and takes it back.
abbrev nothing_yet : ActivationCheck
nothing_yet = record { messages = []; lifecycle = lifecycle_open; expires_at = none }

abbrev suppliers : Suppliers
suppliers = record {
  is_live = true;
  check_for = λ provider id. some nothing_yet;
  cancel_for = λ provider id. true;
}

cancel_order-keeps_example :
    IsSettled (cancel_order suppliers by_text 7 1 5000 6000 (db_of waiting)).1
cancel_order-keeps_example =
    cancel_order-keeps suppliers by_text 7 1 5000 6000 (db_of waiting) settled

empty-IsNumbered : IsNumbered empty_ledger
empty-IsNumbered = record { drawn = tt; distinct = tt; entries_drawn = tt }

waiting_cancellable : is_cancellable (db_of waiting) waiting ≡ true
unfolding is_cancellable any_message
waiting_cancellable = refl

waiting_found : find_order 1 (db_of waiting).orders ≡ some waiting
unfolding find_order
waiting_found = refl

unrefunded : find_journal (codes "num-1:refund") empty_ledger.journals ≡ none
unfolding find_journal
unrefunded = refl

cancel_order-refunds_example :
    Cancelled waiting (db_of waiting) (cancel_order suppliers by_text 7 1 5000 6000 (db_of waiting))
cancel_order-refunds_example =
    cancel_order-refunds suppliers by_text 5000 6000 (db_of waiting) waiting waiting_found
      waiting_cancellable refl (omega arith) empty-IsNumbered refl unrefunded
      (nothing_yet, refl, refl, refl, refl)
