-- ===== src/Api/Sessions/Reuse.antt =====
-- A refresh token is exchanged once, and showing it again ends the whole login.
use naivolt.Base.{
  All, ℕ, ◌+◌, ◌*◌, ◌⊎◌, ◌≡◌, refl, sym, ap, ◌∙◌, true, none, some, List, [], ◌∷◌, ◌++◌, map, ok,
  err, inl, inr, Option-cases, arith,
}
use naivolt.Base.Text.{Text}
use naivolt.Ledger.Account.{Uuid}
use naivolt.Auth.Session.{
  StoredSession, RefreshOutcome, rotate, reuse_detected, rejected, issue_refresh, evaluate_refresh,
  refresh_ttl_days,
}
use naivolt.Api.Sessions.Lookup.{find_session-map, find_session-append, find_session-last}
use naivolt.Api.Sessions.{
  is_some, SessionRow, SessionsDb, AuthError, unauthorized, internal, Granted, find_session,
  revoked_in, rotated_as, insert_session, refresh,
}

-- The row of a token that was exchanged for.
abbrev next_row : (Text → Text) → Text → Uuid → Uuid → Uuid → ℕ → SessionRow
next_row hash_refresh fresh id user_id family now = record {
  session = record {
    id = id;
    user_id = user_id;
    family_id = family;
    expires_at = now + refresh_ttl_days * 24 * 60 * 60 * 1000;
    rotated_at = none;
    revoked_at = none;
  };
  refresh_token_hash = hash_refresh fresh;
}

-- What a granted exchange did.
pub record Exchanged (hash_refresh : Text → Text) (presented fresh : Text) (now : ℕ)
    (db : SessionsDb) (g : Granted) : Type 0 where
  pub row : SessionRow
  pub found : find_session (hash_refresh presented) db.rows ≡ some row
  pub user : row.session.user_id ≡ g.user_id
  family : row.session.family_id ≡ g.family_id
  unused : find_session (hash_refresh fresh) (map (rotated_as row.session.id now) db.rows) ≡ none
  after :
      (refresh hash_refresh presented fresh now db).1.rows
      ≡ map (rotated_as row.session.id now) db.rows
        ++ next_row hash_refresh fresh db.next_id g.user_id g.family_id now ∷ []

evaluate_refresh-rotates :
    (s : StoredSession) (now : ℕ) {u f : Uuid}
    → evaluate_refresh s now ≡ rotate u f
    → (s.user_id ≡ u) × (s.family_id ≡ f)
unfolding evaluate_refresh
evaluate_refresh-rotates s now {u} {f} e = ground arith

RefreshOutcome-cases :
    (o : RefreshOutcome)
    → ((u : Uuid) × (f : Uuid) × (o ≡ rotate u f))
      ⊎ (((f : Uuid) × (o ≡ reuse_detected f)) ⊎ (o ≡ rejected))
RefreshOutcome-cases (rotate u f) = inl (u, f, refl)
RefreshOutcome-cases (reuse_detected f) = inr (inl (f, refl))
RefreshOutcome-cases rejected = inr (inr refl)

module _ (hash_refresh : Text → Text) (presented fresh : Text) (now : ℕ) (db : SessionsDb) where
  refresh-absent :
      find_session (hash_refresh presented) db.rows ≡ none
      → refresh hash_refresh presented fresh now db ≡ (err unauthorized, db)
  unfolding refresh
  refresh-absent e = rw (e, refresh)

  module _ (row : SessionRow)
      (found : find_session (hash_refresh presented) db.rows ≡ some row) where
    refresh-rejected :
        evaluate_refresh row.session now ≡ rejected
        → refresh hash_refresh presented fresh now db ≡ (err unauthorized, db)
    unfolding refresh
    refresh-rejected q = rw (found, refresh) (rw q)

    refresh-reused :
        {f : Uuid}
        → evaluate_refresh row.session now ≡ reuse_detected f
        → refresh hash_refresh presented fresh now db
          ≡ (err unauthorized, record db { rows = map (revoked_in f now) db.rows })
    unfolding refresh
    refresh-reused {f} q = rw (found, refresh) (rw q)

    module _ {u f : Uuid} (q : evaluate_refresh row.session now ≡ rotate u f) where
      abbrev rotated_rows : List SessionRow
      rotated_rows = map (rotated_as row.session.id now) db.rows

      refresh-clash :
          {taken : SessionRow}
          → find_session (hash_refresh fresh) rotated_rows ≡ some taken
          → refresh hash_refresh presented fresh now db ≡ (err internal, db)
      unfolding refresh insert_session issue_refresh
      refresh-clash {taken} e = rw (found, refresh) (rw q (rw e))

      refresh-rotated :
          find_session (hash_refresh fresh) rotated_rows ≡ none
          → refresh hash_refresh presented fresh now db ≡ (
            ok record { user_id = u; family_id = f; refresh_token = fresh },
            record {
              rows = rotated_rows ++ next_row hash_refresh fresh db.next_id u f now ∷ [];
              next_id = db.next_id + 1;
            },
          )
      unfolding refresh insert_session issue_refresh
      refresh-rotated e = rw (found, refresh) (rw q (rw e))

  refused :
      {x : AuthError} {s : SessionsDb} {g : Granted}
      → refresh hash_refresh presented fresh now db ≡ (err x, s)
      → (refresh hash_refresh presented fresh now db).0 ≡ ok g
      → ⊥
  refused {x} {s} {g} k e = let c : err x ≡ ok g = sym (ap (λ p. p.0) k) ∙ e in ground arith

  pub refresh-Exchanged :
      {g : Granted}
      → (refresh hash_refresh presented fresh now db).0 ≡ ok g
      → Exchanged hash_refresh presented fresh now db g
  refresh-Exchanged {g} e = elim (Option-cases (find_session (hash_refresh presented) db.rows)) [
    | inl absent ↦ absurd (refused {g = g} (refresh-absent absent) e)
    | inr (row, found) ↦ elim (RefreshOutcome-cases (evaluate_refresh row.session now)) [
      | inr (inr q) ↦ absurd (refused {g = g} (refresh-rejected row found q) e)
      | inr (inl (f, q)) ↦ absurd (refused {g = g} (refresh-reused row found {f = f} q) e)
      | inl (u, f, q) ↦
          elim (Option-cases
            (find_session (hash_refresh fresh) (map (rotated_as row.session.id now) db.rows))) [
              | inr (taken, clash) ↦ absurd (
                  refused {g = g} (refresh-clash row found {u = u} {f = f} q {taken = taken} clash)
                    e)
              | inl unused ↦
                  let k = refresh-rotated row found {u = u} {f = f} q unused in
                  let granted : ok record { user_id = u; family_id = f; refresh_token = fresh }
                      ≡ ok g =
                    sym (ap (λ p. p.0) k) ∙ e in
                  let users : u ≡ g.user_id = ground arith in
                  let families : f ≡ g.family_id = ground arith in
                  record {
                    row = row;
                    found = found;
                    user = (evaluate_refresh-rotates row.session now {u = u} {f = f} q).0 ∙ users;
                    family =
                        (evaluate_refresh-rotates row.session now {u = u} {f = f} q).1 ∙ families;
                    unused = unused;
                    after = rw (← users, ← families) (ap (λ p. p.1.rows) k);
                  }
            ]
    ]
  ]

revoked_in-hash :
    (family : Uuid) (now : ℕ) (r : SessionRow)
    → (revoked_in family now r).refresh_token_hash ≡ r.refresh_token_hash
revoked_in-hash family now r = ground arith

rotated_as-hash :
    (id : Uuid) (now : ℕ) (r : SessionRow)
    → (rotated_as id now r).refresh_token_hash ≡ r.refresh_token_hash
rotated_as-hash id now r = ground arith

rotated_as_self :
    (r : SessionRow) (now : ℕ) → (rotated_as r.session.id now r).session.rotated_at ≡ some now
rotated_as_self r now = ground arith

rotated_as-family :
    (id : Uuid) (r : SessionRow) (now : ℕ)
    → (rotated_as id now r).session.family_id ≡ r.session.family_id
rotated_as-family id r now = ground arith

evaluate_refresh-reused :
    (s : StoredSession) (now : ℕ) {at : ℕ}
    → s.rotated_at ≡ some at
    → evaluate_refresh s now ≡ reuse_detected s.family_id
unfolding evaluate_refresh
evaluate_refresh-reused s now {at} e = rw (e, evaluate_refresh)

evaluate_refresh-revoked :
    (s : StoredSession) (now : ℕ) {at : ℕ}
    → s.rotated_at ≡ none
    → s.revoked_at ≡ some at
    → evaluate_refresh s now ≡ rejected
unfolding evaluate_refresh
evaluate_refresh-revoked s now {at} e k = rw (e, k, evaluate_refresh)

-- Revoked, if of the family.
abbrev pub DeadIn : Uuid → SessionRow → Type 0
DeadIn family r = r.session.family_id ≡ family → is_some r.session.revoked_at ≡ true

revoked_in-dead :
    (family : Uuid) (now : ℕ) (r : SessionRow) → DeadIn family (revoked_in family now r)
revoked_in-dead family now r e = ground arith

revoke-All :
    (family : Uuid) (now : ℕ) (rows : List SessionRow)
    → All (DeadIn family) (map (revoked_in family now) rows)
revoke-All family now [] = tt
revoke-All family now (r ∷ rows) = (revoked_in-dead family now r, revoke-All family now rows)

revoked_in-next :
    (hash_refresh : Text → Text) (fresh : Text) (id u f : Uuid) (now later : ℕ)
    → let r = revoked_in f later (next_row hash_refresh fresh id u f now) in
      (r.session.rotated_at ≡ none) × (r.session.revoked_at ≡ some later)
revoked_in-next hash_refresh fresh id u f now later = ground arith

-- A token is exchanged once. After an exchange, showing the old token again, at any time, is refused
-- and leaves every session of the login revoked; from then on the token that it was exchanged for is
-- refused too.
pub refresh-reuse :
    (hash_refresh : Text → Text) (presented fresh again last : Text) (now later latest : ℕ)
    (db : SessionsDb) {g : Granted}
    → (refresh hash_refresh presented fresh now db).0 ≡ ok g
    → let db₁ = (refresh hash_refresh presented fresh now db).1 in
      let (shown, db₂) = refresh hash_refresh presented again later db₁ in
      (shown ≡ err unauthorized)
      × All (DeadIn g.family_id) db₂.rows
      × ((refresh hash_refresh fresh last latest db₂).0 ≡ err unauthorized)
refresh-reuse hash_refresh presented fresh again last now later latest db {g} e =
    let x = refresh-Exchanged hash_refresh presented fresh now db {g = g} e in
    let db₁ = (refresh hash_refresh presented fresh now db).1 in
    let next = next_row hash_refresh fresh db.next_id g.user_id g.family_id now in
    let old : find_session (hash_refresh presented) db₁.rows
        ≡ some (rotated_as x.row.session.id now x.row) =
      rw x.after (
        find_session-append (hash_refresh presented) (map (rotated_as x.row.session.id now) db.rows)
          (next ∷ []) {r = rotated_as x.row.session.id now x.row}
          (find_session-map (rotated_as x.row.session.id now) (rotated_as-hash x.row.session.id now)
            (hash_refresh presented) db.rows {r = x.row} x.found)) in
    let reused =
      evaluate_refresh-reused (rotated_as x.row.session.id now x.row).session later {at = now}
        (rotated_as_self x.row now)
      ∙ ap reuse_detected (rotated_as-family x.row.session.id x.row now ∙ x.family) in
    let ends =
      refresh-reused hash_refresh presented again later db₁ (rotated_as x.row.session.id now x.row)
        old {f = g.family_id} reused in
    let new : find_session (hash_refresh fresh) db₁.rows ≡ some next = rw x.after (
      find_session-last (hash_refresh fresh) (map (rotated_as x.row.session.id now) db.rows) next
        x.unused refl) in
    let dead = revoked_in g.family_id later next in
    let state = revoked_in-next hash_refresh fresh db.next_id g.user_id g.family_id now later in
    let db₂ : SessionsDb = record db₁ { rows = map (revoked_in g.family_id later) db₁.rows } in
    let gone =
      refresh-rejected hash_refresh fresh last latest db₂ dead
        (find_session-map (revoked_in g.family_id later) (revoked_in-hash g.family_id later)
          (hash_refresh fresh) db₁.rows {r = next} new)
        (evaluate_refresh-revoked dead.session latest {at = later} state.0 state.1) in
    rw ends (refl, revoke-All g.family_id later db₁.rows, ap (λ p. p.0) gone)
