-- ===== src/Api/Sessions/Lookup.antt =====
-- Finding a session by the hash of its token, in a table that was updated or grew.
use naivolt.Base.{
  ◌≡◌, refl, ap, true, false, none, some, List, [], ◌∷◌, ◌++◌, map, inl, inr, Bool-cases, arith,
}
use naivolt.Base.Text.{Text, text_eq, text_eq_refl}
use naivolt.Api.Sessions.{SessionRow, find_session}

module _ (f : SessionRow → SessionRow)
    (keeps : (r : SessionRow) → (f r).refresh_token_hash ≡ r.refresh_token_hash) where
  pub find_session-map :
      (h : Text) (rows : List SessionRow) {r : SessionRow}
      → find_session h rows ≡ some r
      → find_session h (map f rows) ≡ some (f r)
  unfolding find_session
  find_session-map h [] e = ground arith
  find_session-map h (q ∷ rows) {r} e = elim (Bool-cases (text_eq h q.refresh_token_hash)) [
    | inl hit ↦
        let i : q ≡ r = ground arith in
        let here : text_eq h (f q).refresh_token_hash ≡ true = rw (keeps q) hit in
        rw here (ap (λ z. some (f z)) i)
    | inr miss ↦
        let there : text_eq h (f q).refresh_token_hash ≡ false = rw (keeps q) miss in
        rw there (find_session-map h rows {r = r} (ground arith))
  ]

pub find_session-append :
    (h : Text) (rows more : List SessionRow) {r : SessionRow}
    → find_session h rows ≡ some r
    → find_session h (rows ++ more) ≡ some r
unfolding find_session
find_session-append h [] more e = absurd (ground arith)
find_session-append h (q ∷ rows) more {r} e = elim (Bool-cases (text_eq h q.refresh_token_hash)) [
  | inl hit ↦ rw hit (ground arith)
  | inr miss ↦ rw miss (find_session-append h rows more {r = r} (ground arith))
]

pub find_session-last :
    (h : Text) (rows : List SessionRow) (q : SessionRow)
    → find_session h rows ≡ none
    → h ≡ q.refresh_token_hash
    → find_session h (rows ++ q ∷ []) ≡ some q
unfolding find_session
find_session-last h [] q e same = rw (← same) (rw (text_eq_refl h) refl)
find_session-last h (r ∷ rows) q e same = elim (Bool-cases (text_eq h r.refresh_token_hash)) [
  | inl hit ↦ ground arith
  | inr miss ↦ rw miss (find_session-last h rows q (ground arith) same)
]
