-- ===== src/Ledger/Journal/Build/Totals.antt =====
-- The per-asset sums that `build` accumulates, against the plain sum over the entries.
use naivolt.Base.{
  ◌≡◌, ◌≢◌, refl, ◌∙◌, inl, inr, false, List, [], ◌∷◌, All, if◌then◌else◌, ◌==◌, Bool-cases, ok,
  err, sym, arith,
}
use naivolt.Base.Int.{ℤ, pos, ◌+ℤ◌, is_zero, int_laws}
use naivolt.Base.Sums.{sum_where}
use naivolt.Core.Asset.{Asset, asset_index}
use naivolt.Ledger.Journal.{LedgerError, Entry, Sums, add_to, sum_entries, check_sums}

-- What the entries of one asset add up to.
unfoldable pub total : Asset → List Entry → ℤ
total a = sum_where (λ e. e.amount) (λ e. asset_index a == asset_index e.asset)

get : Asset → Sums → ℤ
get a [] = pos 0
get a ((b, y) ∷ s) = if asset_index a == asset_index b then y else get a s

get-add_to :
    (a b : Asset) (x : ℤ) (s : Sums)
    → get a (add_to b x s) ≡ get a s +ℤ (if asset_index a == asset_index b then x else pos 0)
unfolding get add_to
get-add_to a b x [] = grind int_laws
get-add_to a b x ((c, y) ∷ s) = grind (int_laws, get-add_to a b x s)

-- No asset has two sums.
abbrev IsDistinct : Sums → Type 0
IsDistinct [] = Unit
IsDistinct ((b, y) ∷ s) = All (λ p. asset_index b ≢ asset_index p.0) s × IsDistinct s

add_to-absent :
    (c b : Asset) (x : ℤ) (s : Sums)
    → All (λ p. asset_index c ≢ asset_index p.0) s
    → asset_index c ≢ asset_index b
    → All (λ p. asset_index c ≢ asset_index p.0) (add_to b x s)
unfolding add_to
add_to-absent c b x [] h n = (n, tt)
add_to-absent c b x ((d, y) ∷ s) h n = elim (Bool-cases (asset_index b == asset_index d)) [
  | inl e ↦ rw e h
  | inr e ↦ rw e (h.0, add_to-absent c b x s h.1 n)
]

add_to-IsDistinct : (b : Asset) (x : ℤ) (s : Sums) → IsDistinct s → IsDistinct (add_to b x s)
unfolding add_to
add_to-IsDistinct b x [] h = (tt, tt)
add_to-IsDistinct b x ((c, y) ∷ s) h = elim (Bool-cases (asset_index b == asset_index c)) [
  | inl e ↦ rw e h
  | inr e ↦ rw e (add_to-absent c b x s h.0 (λ q. ground arith), add_to-IsDistinct b x s h.1)
]

get-absent :
    (a b : Asset) (s : Sums)
    → All (λ p. asset_index b ≢ asset_index p.0) s
    → asset_index a ≡ asset_index b
    → get a s ≡ pos 0
unfolding get
get-absent a b [] h e = refl
get-absent a b ((c, y) ∷ s) h e = ground (arith, get-absent a b s h.1 e)

-- The second loop passes exactly when every sum is zero.
check_sums-zero : (s : Sums) (a : Asset) → check_sums s ≡ ok tt → get a s ≡ pos 0
unfolding check_sums get
check_sums-zero [] a h = refl
check_sums-zero ((b, y) ∷ s) a h = ground (arith, check_sums-zero s a)

get-tail :
    (b : Asset) (y : ℤ) (s : Sums)
    → All (λ p. asset_index b ≢ asset_index p.0) s
    → ((a : Asset) → get a ((b, y) ∷ s) ≡ pos 0)
    → (a : Asset) → get a s ≡ pos 0
unfolding get
get-tail b y s d h a = ground (arith, h a, get-absent a b s d)

check_sums-pass : (s : Sums) → IsDistinct s → ((a : Asset) → get a s ≡ pos 0) → check_sums s ≡ ok tt
unfolding check_sums get
check_sums-pass [] d h = refl
check_sums-pass ((b, y) ∷ s) d h = ground (arith, h b, check_sums-pass s d.1 (get-tail b y s d.0 h))

-- The sums after the whole first loop.
pub add_all : List Entry → Sums → Sums
add_all [] s = s
add_all (e ∷ es) s = add_all es (add_to e.asset e.amount s)

add_all-IsDistinct : (es : List Entry) (s : Sums) → IsDistinct s → IsDistinct (add_all es s)
unfolding add_all
add_all-IsDistinct [] s d = d
add_all-IsDistinct (e ∷ es) s d =
    add_all-IsDistinct es (add_to e.asset e.amount s) (add_to-IsDistinct e.asset e.amount s d)

get-add_all :
    (a : Asset) (es : List Entry) (s : Sums) → get a (add_all es s) ≡ get a s +ℤ total a es
unfolding add_all total sum_where
get-add_all a [] s = omega int_laws
get-add_all a (e ∷ es) s =
    get-add_all a es (add_to e.asset e.amount s) ∙ grind (int_laws, get-add_to a e.asset e.amount s)

abbrev pub Nonzero : List Entry → Type 0
Nonzero = All (λ e. is_zero e.amount ≡ false)

pub sum_entries-ok :
    (es : List Entry) (s : Sums) → Nonzero es → sum_entries es s ≡ ok (add_all es s)
unfolding sum_entries add_all
sum_entries-ok [] s h = refl
sum_entries-ok (e ∷ es) s h = rw h.0 (sum_entries-ok es (add_to e.asset e.amount s) h.1)

pub sum_entries-inv :
    (es : List Entry) (s : Sums) {r : Sums}
    → sum_entries es s ≡ ok r
    → Nonzero es × (r ≡ add_all es s)
unfolding sum_entries add_all
sum_entries-inv [] s h = (tt, ground arith)
sum_entries-inv (e ∷ es) s h = elim (Bool-cases (is_zero e.amount)) [
  | inl z ↦ ground arith
  | inr z ↦
      let (rest, same) = sum_entries-inv es (add_to e.asset e.amount s) (ground arith) in
      ((z, rest), same)
]

-- The second loop passes exactly when every asset adds up to zero.
get-sums : (a : Asset) (es : List Entry) → get a (add_all es []) ≡ total a es
unfolding get
get-sums a es = get-add_all a es [] ∙ omega int_laws

pub sums_pass :
    (es : List Entry) → ((a : Asset) → total a es ≡ pos 0) → check_sums (add_all es []) ≡ ok tt
sums_pass es h =
    check_sums-pass (add_all es []) (add_all-IsDistinct es [] tt) (λ a. get-sums a es ∙ h a)

pub sums_zero :
    (es : List Entry) (a : Asset) → check_sums (add_all es []) ≡ ok tt → total a es ≡ pos 0
sums_zero es a h = sym (get-sums a es) ∙ check_sums-zero (add_all es []) a h

-- A sum that the second loop reports is the total of its asset, and is not zero.
check_sums-err :
    (s : Sums) {a : Asset} {r : ℤ}
    → IsDistinct s
    → check_sums s ≡ err (LedgerError.unbalanced a r)
    → (get a s ≡ r) × (is_zero r ≡ false)
unfolding check_sums get
check_sums-err [] d h = ground arith
check_sums-err ((b, y) ∷ s) {a} {r} d h = elim (Bool-cases (is_zero y)) [
  | inl z ↦
      let (found, nonzero) = check_sums-err s {a = a} {r = r} d.1 (ground arith) in
      (ground (arith, get-absent a b s d.0), nonzero)
  | inr z ↦ ground arith
]

pub sums_err :
    (es : List Entry) {a : Asset} {r : ℤ}
    → check_sums (add_all es []) ≡ err (LedgerError.unbalanced a r)
    → (total a es ≡ r) × (is_zero r ≡ false)
sums_err es {a} {r} h =
    let (found, nonzero) = check_sums-err (add_all es []) (add_all-IsDistinct es [] tt) h in
    (sym (get-sums a es) ∙ found, nonzero)
