-- ===== src/Setup/Decimal.antt =====
-- The digits that Log.cpp prints, against the reader of numbers.
use nermalproxy.Prelude.{
  ℕ, zero, suc, ◌+◌, ◌-◌, ◌*◌, ◌/◌, ◌%◌, ◌^◌, ◌≤◌, ◌<◌, ◌≡◌, ◌∙◌, ap, refl, true, ◌&&◌, [], ◌∷◌,
  ◌++◌, arith, leb, All, dec_lt, subst, sym, some, All-append, lt→ltb,
}
use nermalproxy.CText.{Bytes, digits_of, decimal, skip_space}
use nermalproxy.Setup.{digits_value, digits_in_range, stoul}

IsDigit : ℕ → Type 0
IsDigit c = (leb b'0' c && leb c b'9') ≡ true

-- A digit at the end of digits.
digits_value-snoc :
    (n : ℕ) (ds : Bytes) (d : ℕ)
    → All (λ c. (leb b'0' c && leb c b'9') ≡ true) ds
    → d < 10
    → digits_value n (ds ++ (d + b'0') ∷ []) ≡ digits_value n ds * 10 + d
unfolding digits_value
digits_value-snoc n [] d h small = ground arith
digits_value-snoc n (c ∷ cs) d h small =
    rw (h.0, digits_value-snoc (n * 10 + (c - b'0')) cs d h.1 small)

-- What a text has to do to print a number.
pub record IsNumeral (n : ℕ) (text : Bytes) : Type 0 where
  pub digital : All (λ c. (leb b'0' c && leb c b'9') ≡ true) text
  pub value : digits_value 0 text ≡ n

digit-IsNumeral : (n : ℕ) → n < 10 → IsNumeral n ((n + b'0') ∷ [])
unfolding digits_value
digit-IsNumeral n h = record { digital = (ground arith, tt); value = ground arith }

snoc-IsNumeral :
    (n : ℕ) (front : Bytes) → IsNumeral (n / 10) front → IsNumeral n (front ++ (n % 10 + b'0') ∷ [])
snoc-IsNumeral n front h = record {
  digital =
      All-append (λ c. (leb b'0' c && leb c b'9') ≡ true) front ((n % 10 + b'0') ∷ []) h.digital
        (ground arith, tt);
  value =
      digits_value-snoc 0 front (n % 10) h.digital (omega arith)
      ∙ ap (λ v. v * 10 + n % 10) h.value
      ∙ omega arith;
}

digits_of_small : (fuel n : ℕ) → n < 10 → digits_of (suc fuel) n ≡ (n + b'0') ∷ []
unfolding digits_of
digits_of_small fuel n h = ground (arith, h)

digits_of_large :
    (fuel n : ℕ) → 10 ≤ n → digits_of (suc fuel) n ≡ digits_of fuel (n / 10) ++ (n % 10 + b'0') ∷ []
unfolding digits_of
digits_of_large fuel n h = ground (arith, h)

digits_of-IsNumeral : (fuel n : ℕ) → n < 10 ^ fuel → IsNumeral n (digits_of fuel n)
unfolding digits_of digits_value
digits_of-IsNumeral zero n h = record { digital = tt; value = omega arith }
digits_of-IsNumeral (suc fuel) n h = elim (dec_lt n 10) [
  | yes small ↦ subst (IsNumeral n) (sym (digits_of_small fuel n small)) (digit-IsNumeral n small)
  | no large ↦
      subst (IsNumeral n) (sym (digits_of_large fuel n (omega arith))) (
        snoc-IsNumeral n (digits_of fuel (n / 10))
          (digits_of-IsNumeral fuel (n / 10) (omega arith)))
]

pub decimal-IsNumeral : (n : ℕ) → n < 2 ^ 64 → IsNumeral n (decimal n)
decimal-IsNumeral n h = digits_of-IsNumeral 20 n (omega arith)

digit_bounds : (c : ℕ) → (leb b'0' c && leb c b'9') ≡ true → (48 ≤ c) × (c ≤ 57)
digit_bounds c h = (ground arith, ground arith)

-- A numeral that has a first digit is in range, and `std::stoul` reads it.
digits_in_range-numeral :
    (n c : ℕ) (cs : Bytes) → n < 2 ^ 64 → IsNumeral n (c ∷ cs) → digits_in_range (c ∷ cs) ≡ some n
unfolding digits_in_range
digits_in_range-numeral n c cs h r = rw (r.digital.0, r.value, lt→ltb n (2 ^ 64) h)

stoul-numeral : (n c : ℕ) (cs : Bytes) → n < 2 ^ 64 → IsNumeral n (c ∷ cs) → stoul (c ∷ cs) ≡ some n
unfolding stoul skip_space
stoul-numeral n c cs h r =
    let (low, high) = digit_bounds c r.digital.0 in
    let e = digits_in_range-numeral n c cs h r in ground arith

snoc-nonempty : (front : Bytes) (d : ℕ) → (c : ℕ) × (cs : Bytes) × (front ++ d ∷ [] ≡ c ∷ cs)
snoc-nonempty [] d = (d, [], refl)
snoc-nonempty (c ∷ cs) d = (c, cs ++ d ∷ [], refl)

pub decimal-nonempty : (n : ℕ) → (c : ℕ) × (cs : Bytes) × (decimal n ≡ c ∷ cs)
decimal-nonempty n = elim (dec_lt n 10) [
  | yes small ↦ (n + b'0', [], digits_of_small 19 n small)
  | no large ↦
      let (c, cs, e) = snoc-nonempty (digits_of 19 (n / 10)) (n % 10 + b'0') in
      (c, cs, digits_of_large 19 n (omega arith) ∙ e)
]

-- What `%lu` prints, `std::stoul` reads back.
pub stoul-decimal : (n : ℕ) → n < 2 ^ 64 → stoul (decimal n) ≡ some n
stoul-decimal n h =
    let (c, cs, e) = decimal-nonempty n in
    ap stoul e ∙ stoul-numeral n c cs h (subst (IsNumeral n) e (decimal-IsNumeral n h))
