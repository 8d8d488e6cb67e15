-- ===== src/Watcher/Topics/Roundtrip.antt =====
-- Addresses and topics stand for each other, whatever the case of their letters.
use mathlib.Core.Path.{ap₂}
use naivolt.Base.{
  ◌↔◌, length-map, All-append, All-replicate, ℕ, ◌+◌, ◌-◌, ◌≤◌, ◌≡◌, ◌≢◌, ◌⊎◌, inl, inr, refl, sym,
  ap, ◌∙◌, [], ◌∷◌, ◌++◌, length, replicate, drop, All, arith,
}
use naivolt.Base.Text.{Text, codes, to_lower, lower_byte}
use naivolt.Watcher.Topics.{trim_start_0x, address_to_topic, topic_to_address}

-- A hexadecimal digit, in either case.
abbrev pub IsHex : ℕ → Type 0
IsHex c = ((b'0' ≤ c) × (c ≤ b'9')) ⊎ (((b'a' ≤ c) × (c ≤ b'f')) ⊎ ((b'A' ≤ c) × (c ≤ b'F')))

-- The forty digits of an address.
abbrev pub IsBody : Text → Type 0
IsBody s = (length s ≡ 40) × All IsHex s

trim_start_0x-hex : (s : Text) → All IsHex s → trim_start_0x s ≡ s
unfolding trim_start_0x
trim_start_0x-hex [] h = refl
trim_start_0x-hex (c ∷ []) h = refl
trim_start_0x-hex (c ∷ d ∷ cs) h =
    let p : d ≢ b'x' = λ e. elim h.1.0 [
      | inl q ↦ omega arith
      | inr (inl q) ↦ omega arith
      | inr (inr q) ↦ omega arith
    ] in
    ground arith

lower_byte-IsHex : (c : ℕ) → IsHex c → IsHex (lower_byte c)
lower_byte-IsHex c (inl h) = let e : lower_byte c ≡ c = ground arith in rw e (inl h)
lower_byte-IsHex c (inr (inl h)) = let e : lower_byte c ≡ c = ground arith in rw e (inr (inl h))
lower_byte-IsHex c (inr (inr h)) =
    let e : lower_byte c ≡ c + 32 = ground arith in rw e (inr (inl (omega arith)))

lower_byte_idempotent : (c : ℕ) → lower_byte (lower_byte c) ≡ lower_byte c
lower_byte_idempotent c = ground arith

to_lower-IsHex : (s : Text) → All IsHex s → All IsHex (to_lower s)
to_lower-IsHex [] h = tt
to_lower-IsHex (c ∷ cs) h = (lower_byte-IsHex c h.0, to_lower-IsHex cs h.1)

to_lower_idempotent : (s : Text) → to_lower (to_lower s) ≡ to_lower s
to_lower_idempotent [] = refl
to_lower_idempotent (c ∷ cs) = ap₂ ◌∷◌ (lower_byte_idempotent c) (to_lower_idempotent cs)

-- A topic is the prefix and 64 digits, the last 40 of them the address in lower case.
topic_form :
    (body : Text)
    → IsBody body
    → address_to_topic (codes "0x" ++ body) ≡ codes "0x" ++ (replicate 24 b'0' ++ to_lower body)
unfolding address_to_topic trim_start_0x
topic_form body h = rw (trim_start_0x-hex body h.1) (rw (length-map lower_byte body) (rw h.0 refl))

topic_to_address-long :
    (clean : Text)
    → trim_start_0x clean ≡ clean
    → 40 ≤ length clean
    → topic_to_address (codes "0x" ++ clean)
      ≡ codes "0x" ++ to_lower (drop (length clean - 40) clean)
unfolding topic_to_address trim_start_0x
topic_to_address-long clean e h = rw e (ground arith)

topic_to_address-digits :
    (body : Text)
    → IsBody body
    → topic_to_address (codes "0x" ++ (replicate 24 b'0' ++ to_lower body))
      ≡ codes "0x" ++ to_lower body
topic_to_address-digits body h =
    let digits : Text = replicate 24 b'0' ++ to_lower body in
    let hex : All IsHex digits =
      All-append IsHex (replicate 24 b'0') (to_lower body)
        (All-replicate IsHex (inl (omega arith)) 24) (to_lower-IsHex body h.1) in
    let long : length digits ≡ 64 = omega (arith, length-map lower_byte body) in
    let start : length digits - 40 ≡ 24 = omega arith in
    topic_to_address-long digits (trim_start_0x-hex digits hex) (omega arith)
    ∙ ap (λ s. codes "0x" ++ s)
        (ap (λ n. to_lower (drop n digits)) start ∙ to_lower_idempotent body)

-- The address in the topic of "0x" and forty hexadecimal digits is that address in lower case.
pub topic_to_address-address_to_topic :
    (body : Text)
    → IsBody body
    → topic_to_address (address_to_topic (codes "0x" ++ body)) ≡ codes "0x" ++ to_lower body
topic_to_address-address_to_topic body h = rw (topic_form body h) (topic_to_address-digits body h)

-- Two addresses of forty hexadecimal digits have the same topic exactly when they differ at most in
-- the case of their letters.
pub address_to_topic_iff :
    (body other : Text)
    → IsBody body
    → IsBody other
    → (address_to_topic (codes "0x" ++ body) ≡ address_to_topic (codes "0x" ++ other))
      ↔ (to_lower body ≡ to_lower other)
address_to_topic_iff body other h k = (
  (λ e. ap (drop 2) (
      sym (topic_to_address-address_to_topic body h)
      ∙ (ap topic_to_address e ∙ topic_to_address-address_to_topic other k))),
  (λ e.
      topic_form body h
      ∙ (ap (λ s. codes "0x" ++ (replicate 24 b'0' ++ s)) e ∙ sym (topic_form other k))),
)
