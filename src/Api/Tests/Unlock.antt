-- ===== src/Api/Tests/Unlock.antt =====
-- An instance of the theorem about unlocking.
use naivolt.Base.{◌≡◌, refl, Option, none, some, [], ◌∷◌, ok}
use naivolt.Base.Text.{Text, codes, text_eq}
use naivolt.Ledger.Account.{Uuid}
use naivolt.Auth.Identifier.{trim, trim_start, trim_end}
use naivolt.Auth.Otp.{Argon2}
use naivolt.Auth.Pin.{verify_pin}
use naivolt.Auth.Session.{issue_refresh, evaluate_refresh}
use naivolt.Api.Sessions.{SessionsDb, Granted, find_session, insert_session, refresh}
use naivolt.Api.Unlock.{presented_refresh, refresh_request, unlock}
use naivolt.Api.Unlock.Guarded.{IsOwner, unlock-IsOwner}

abbrev argon2 : Argon2
argon2 = record {
  hash_password = λ salt code. ok code;
  verify_password = λ code hash. ok (text_eq code hash);
}

abbrev signed_in : SessionsDb
signed_in = record {
  rows =
      record {
        session = record {
          id = 1;
          user_id = 7;
          family_id = 2;
          expires_at = 1000;
          rotated_at = none;
          revoked_at = none;
        };
        refresh_token_hash = codes "aa";
      }
      ∷ [];
  next_id = 3;
}

abbrev keep : Text → Text
keep s = s

abbrev pin_of : Uuid → Option Text
pin_of user = some (codes "428193")

abbrev granted : Granted
granted = record { user_id = 7; family_id = 2; refresh_token = codes "bb" }

unlocked :
    (unlock argon2 pin_of keep none (codes "aa") (codes "428193") (codes "bb") 10 signed_in).0
    ≡ ok granted
unfolding unlock refresh_request presented_refresh refresh find_session insert_session issue_refresh
    evaluate_refresh text_eq trim trim_start trim_end verify_pin
unlocked = refl

bare : trim (codes "aa") ≡ codes "aa"
unfolding trim trim_start trim_end
bare = refl

unlock-IsOwner_example : IsOwner argon2 pin_of (codes "428193") (codes "aa") signed_in 7
unlock-IsOwner_example =
    unlock-IsOwner argon2 pin_of keep none (codes "aa") (codes "428193") (codes "bb") 10 signed_in
      granted bare refl unlocked
