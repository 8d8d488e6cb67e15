-- ===== src/Api/Tests.antt =====
-- Instances of the theorems about the handlers.
pub mod Orders
pub mod Funding
pub mod Payouts
mod Purchase
mod Reconcile
mod SignIn
mod Otp
mod Unlock
use naivolt.Base.{◌≡◌, refl, none, [], ◌∷◌, All, ok, err}
use naivolt.Base.Text.{Text, codes, text_eq}
use naivolt.Auth.Session.{issue_refresh, evaluate_refresh}
use naivolt.Api.Sessions.{SessionsDb, Granted, unauthorized, find_session, insert_session, refresh}
use naivolt.Api.Sessions.Reuse.{DeadIn, refresh-reuse}

-- A login of user 7, whose token is hashed to itself.
abbrev signed_in : SessionsDb
signed_in = record {
  rows =
      record {
        session = record {
          id = 1;
          user_id = 7;
          family_id = 2;
          expires_at = 1000;
          rotated_at = none;
          revoked_at = none;
        };
        refresh_token_hash = codes "aa";
      }
      ∷ [];
  next_id = 3;
}

abbrev keep : Text → Text
keep s = s

abbrev granted : Granted
granted = record { user_id = 7; family_id = 2; refresh_token = codes "bb" }

exchanged : (refresh keep (codes "aa") (codes "bb") 10 signed_in).0 ≡ ok granted
unfolding refresh find_session insert_session issue_refresh evaluate_refresh text_eq
exchanged = refl

refresh-reuse_example :
    (let db₁ = (refresh keep (codes "aa") (codes "bb") 10 signed_in).1 in
      let (shown, db₂) = refresh keep (codes "aa") (codes "cc") 20 db₁ in
      (shown ≡ err unauthorized)
      × All (DeadIn 2) db₂.rows
      × ((refresh keep (codes "bb") (codes "dd") 30 db₂).0 ≡ err unauthorized))
refresh-reuse_example =
    refresh-reuse keep (codes "aa") (codes "bb") (codes "cc") (codes "dd") 10 20 30 signed_in
      {g = granted} exchanged
