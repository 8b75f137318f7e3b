-- ===== src/Amount/Digits.antt =====
-- Printing and reading decimal digits.
use reference_wallet.Base.{
  ℕ, zero, suc, ◌+◌, ◌-◌, ◌*◌, ◌/◌, ◌%◌, ◌^◌, ◌≤◌, ◌<◌, ◌≡◌, refl, ◌∙◌, ap, true, false, ◌&&◌, List,
  ◌++◌, [], ◌∷◌, ltb, ◌==◌, length, length-append, arith, Bool-cases, inl, inr, All, All-append,
}
use native.Mathlib.Nat.{pow-suc}
use reference_wallet.Amount.Text.{
  digit, is_digit, print_digits, print_nat, pad, is_empty, trim, take_digits,
}

abbrev pub AllDigits : List ℕ → Type 0
AllDigits = All (λ c. (48 ≤ c) × (c ≤ 57))

-- The number that digits stand for, after those that stand for `v`.
abbrev pub value_from : ℕ → List ℕ → ℕ
value_from v [] = v
value_from v (c ∷ cs) = value_from (v * 10 + (c - 48)) cs

pub value_from-append :
    (v : ℕ) (cs ds : List ℕ) → value_from v (cs ++ ds) ≡ value_from (value_from v cs) ds
value_from-append v [] ds = refl
value_from-append v (c ∷ cs) ds = value_from-append (v * 10 + (c - 48)) cs ds

-- The digits are taken up to what cannot continue them.
abbrev pub IsStopped : List ℕ → Type 0
IsStopped [] = Unit
IsStopped (c ∷ cs) = is_digit c ≡ false

pub take_digits-append :
    (v n : ℕ) (cs rest : List ℕ)
    → AllDigits cs
    → IsStopped rest
    → take_digits v n (cs ++ rest) ≡ (value_from v cs, n + length cs, rest)
unfolding take_digits
take_digits-append v n [] [] h s = ground arith
take_digits-append v n [] (c ∷ rest) h s = ground arith
take_digits-append v n (c ∷ cs) rest ((lo, hi), h) s =
    ground (arith, take_digits-append (v * 10 + (c - 48)) (suc n) cs rest h s)

print_digits-AllDigits : (f n : ℕ) → AllDigits (print_digits f n)
unfolding print_digits
print_digits-AllDigits zero n = tt
print_digits-AllDigits (suc f) n = elim (Bool-cases (ltb n 10)) [
  | inl small ↦ rw small ((omega arith, ground arith), tt)
  | inr large ↦ rw large (
      All-append (λ c. (48 ≤ c) × (c ≤ 57)) (print_digits f (n / 10)) (digit (n % 10) ∷ [])
        (print_digits-AllDigits f (n / 10)) ((omega arith, omega arith), tt))
]

print_digits-value : (f n : ℕ) → n < f → value_from 0 (print_digits f n) ≡ n
unfolding print_digits
print_digits-value zero n h = elim h [ ]
print_digits-value (suc f) n h = elim (Bool-cases (ltb n 10)) [
  | inl small ↦ rw small (omega arith)
  | inr large ↦
      rw
        (
          large,
          value_from-append 0 (print_digits f (n / 10)) (digit (n % 10) ∷ []),
          print_digits-value f (n / 10) (ground arith),
        )
        (omega arith)
]

print_digits-pos : (f n : ℕ) → 0 < f → 1 ≤ length (print_digits f n)
unfolding print_digits
print_digits-pos zero n h = elim h [ ]
print_digits-pos (suc f) n h =
    ground (arith, length-append (print_digits f (n / 10)) (digit (n % 10) ∷ []))

pub print_nat-AllDigits : (n : ℕ) → AllDigits (print_nat n)
unfolding print_nat
print_nat-AllDigits n = print_digits-AllDigits (suc n) n

pub print_nat-value : (n : ℕ) → value_from 0 (print_nat n) ≡ n
unfolding print_nat
print_nat-value n = print_digits-value (suc n) n (omega arith)

pub print_nat-pos : (n : ℕ) → 1 ≤ length (print_nat n)
unfolding print_nat
print_nat-pos n = print_digits-pos (suc n) n (omega arith)

pub pad-AllDigits : (k n : ℕ) → AllDigits (pad k n)
unfolding pad
pad-AllDigits zero n = tt
pad-AllDigits (suc k) n =
    All-append (λ c. (48 ≤ c) × (c ≤ 57)) (pad k (n / 10)) (digit (n % 10) ∷ [])
      (pad-AllDigits k (n / 10)) ((omega arith, omega arith), tt)

pub length-pad : (k n : ℕ) → length (pad k n) ≡ k
unfolding pad
length-pad zero n = refl
length-pad (suc k) n =
    omega (arith, length-append (pad k (n / 10)) (digit (n % 10) ∷ []), length-pad k (n / 10))

div_ten-lt-pow : (k n : ℕ) → n < 10 ^ suc k → n / 10 < 10 ^ k
div_ten-lt-pow k n h = omega (arith, pow-suc 10 k)

pub pad-value : (v k n : ℕ) → n < 10 ^ k → value_from v (pad k n) ≡ v * 10 ^ k + n
unfolding pad
pad-value v zero n h = omega arith
pad-value v (suc k) n h =
    value_from-append v (pad k (n / 10)) (digit (n % 10) ∷ [])
    ∙ rw (pow-suc 10 k) (omega (arith, pad-value v k (n / 10) (div_ten-lt-pow k n h)))

-- What `trim` drops are zeros at the end.
pub trim-AllDigits : (least : ℕ) (cs : List ℕ) → AllDigits cs → AllDigits (trim least cs)
unfolding trim
trim-AllDigits least [] h = tt
trim-AllDigits least (c ∷ cs) (d, h) = ground (arith, trim-AllDigits (least - 1) cs h)

pub length-trim-le : (least : ℕ) (cs : List ℕ) → length (trim least cs) ≤ length cs
unfolding trim
length-trim-le least [] = omega arith
length-trim-le least (c ∷ cs) = ground (arith, length-trim-le (least - 1) cs)

is_empty-eq : (cs : List ℕ) → is_empty cs ≡ true → cs ≡ []
is_empty-eq [] e = refl
is_empty-eq (c ∷ cs) e = absurd (cc)

-- The digit and the rest where `trim` drops them.
dropped :
    (least c : ℕ) (cs : List ℕ)
    → (least == 0 && (c == 48 && is_empty cs)) ≡ true
    → (c ≡ 48) × (cs ≡ [])
dropped least c cs h = (ground arith, is_empty-eq cs (ground arith))

zero_tail :
    (v j c : ℕ) (cs : List ℕ)
    → c ≡ 48
    → cs ≡ []
    → value_from (v * 10 + (c - 48)) cs * 10 ^ j ≡ v * 10 ^ suc j
zero_tail v j c cs h e = rw (e, h, pow-suc 10 j) (omega arith)

-- `trim` keeps the value up to a power of ten, one factor for each digit dropped.
pub trim-value :
    (v least : ℕ) (cs : List ℕ)
    → (j : ℕ) × (length cs ≡ length (trim least cs) + j)
      × (value_from v cs ≡ value_from v (trim least cs) * 10 ^ j)
unfolding trim
trim-value v least [] = (0, refl, omega arith)
trim-value v least (c ∷ cs) =
    let (j, len, val) = trim-value (v * 10 + (c - 48)) (least - 1) cs in
    elim (Bool-cases (least == 0 && (c == 48 && is_empty (trim (least - 1) cs)))) [
      | inl drop ↦
          let (zero_digit, empty) = dropped least c (trim (least - 1) cs) drop in
          rw drop (
            suc j,
            omega (arith, ap length empty),
            val ∙ zero_tail v j c (trim (least - 1) cs) zero_digit empty,
          )
      | inr keep ↦ rw keep (j, omega arith, val)
    ]
