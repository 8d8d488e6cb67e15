-- ===== src/Ledger/Account/Planes.antt =====
-- The custody plane and the liability plane have no account kind in common.
use naivolt.Base.{◌≡◌, true, false, arith}
use naivolt.Ledger.Account.{AccountKind, is_liability, is_user_scoped, is_custody, kind_index}

-- A custody kind is neither a liability nor owned by a user, and every kind owned by a user is a
-- liability: the two planes are disjoint.
pub planes_disjoint :
    (k : AccountKind)
    → (is_custody k ≡ true → (is_liability k ≡ false) × (is_user_scoped k ≡ false))
      × (is_user_scoped k ≡ true → is_liability k ≡ true)
unfolding is_custody is_liability is_user_scoped
planes_disjoint k = ground arith

pub kind_index-injective : (a b : AccountKind) → kind_index a ≡ kind_index b → a ≡ b
unfolding kind_index
kind_index-injective AccountKind.user_crypto b h = ground arith
kind_index-injective _ b h = ground arith
