-- ===== src/Py/Int/RoundTrip.antt =====
-- `int(str(n))` is `n`, and what `str(n)` holds.
use cyclone_distributed_task.Prelude.{
  ℕ, zero, suc, ◌+◌, ◌/◌, ◌%◌, ◌≤◌, ◌<◌, ◌≡◌, ◌≢◌, ◌⊎◌, inl, inr, refl, Bool, true, false, [], ◌∷◌,
  arith, All, Text, ℤ, pos, negsuc, some, ltb, ◌∙◌, Bool-cases,
}
use cyclone_distributed_task.Py.Result.{ok}
use cyclone_distributed_task.Py.Str.{is_space, strip-HasNoSpace, HasNoSpace, Lacks}
use cyclone_distributed_task.Py.Int.{
  digits, format_nat, format, scan, signed, parse, or_value_error,
}

abbrev pub IsDigit : ℕ → Type 0
IsDigit c = (b'0' ≤ c) × (c ≤ b'9')

digits-All : (fuel n : ℕ) (out : Text) → All IsDigit out → All IsDigit (digits fuel n out)
unfolding digits
digits-All zero n out h = h
digits-All (suc fuel) n out h = ground (arith, digits-All fuel (n / 10) ((b'0' + n % 10) ∷ out))

scan-digits :
    (b : Bool) (fuel n : ℕ) (out : Text) → n < fuel → scan b 0 (digits fuel n out) ≡ scan true n out
unfolding digits scan
scan-digits b zero n out h = elim h [ ]
scan-digits b (suc fuel) n out h =
    ground (arith, scan-digits b fuel (n / 10) ((b'0' + n % 10) ∷ out))

digits-cons : (fuel n c : ℕ) (out : Text) → (d : ℕ) × (t : Text) × (digits fuel n (c ∷ out) ≡ d ∷ t)
unfolding digits
digits-cons zero n c out = (c, out, refl)
digits-cons (suc fuel) n c out =
    let (d, t, e) = digits-cons fuel (n / 10) (b'0' + n % 10) (c ∷ out) in
    elim (Bool-cases (ltb n 10)) [ inl y ↦ (b'0' + n, c ∷ out, rw y) | inr z ↦ (d, t, rw (z, e)) ]

format_nat-cons : (n : ℕ) → (d : ℕ) × (t : Text) × (format_nat n ≡ d ∷ t)
unfolding format_nat
format_nat-cons n =
    let (d, t, e) = digits-cons n (n / 10) (b'0' + n % 10) [] in
    elim (Bool-cases (ltb n 10)) [ inl y ↦ (b'0' + n, [], rw y) | inr z ↦ (d, t, rw (z, e)) ]

format_nat-All : (n : ℕ) → All IsDigit (format_nat n)
unfolding format_nat
format_nat-All n = digits-All (suc n) n [] tt

-- A digit, or the sign.
abbrev pub IsNumeral : ℕ → Type 0
IsNumeral c = (c ≡ b'-') ⊎ IsDigit c

All-imp : {P Q : ℕ → Type 0} → ((c : ℕ) → P c → Q c) → (s : Text) → All P s → All Q s
All-imp f [] h = tt
All-imp f (c ∷ s) h = (f c h.0, All-imp f s h.1)

pub format-All : (z : ℤ) → All IsNumeral (format z)
unfolding format
format-All (pos n) = All-imp (λ c h. inr h) (format_nat n) (format_nat-All n)
format-All (negsuc n) =
    (inl refl, All-imp (λ c h. inr h) (format_nat (suc n)) (format_nat-All (suc n)))

numeral_ne : (k c : ℕ) → k ≢ b'-' → (k < b'0') ⊎ (b'9' < k) → IsNumeral c → c ≢ k
numeral_ne k c h r i = omega arith

-- The text of an integer holds no separator: nothing but a sign and digits.
pub format-Lacks : (k : ℕ) (z : ℤ) → k ≢ b'-' → (k < b'0') ⊎ (b'9' < k) → Lacks k (format z)
format-Lacks k z h r = All-imp (λ c i. numeral_ne k c h r i) (format z) (format-All z)

numeral_space : (c : ℕ) → IsNumeral c → is_space c ≡ false
numeral_space c h = ground arith

format-HasNoSpace : (z : ℤ) → HasNoSpace (format z)
format-HasNoSpace z = All-imp numeral_space (format z) (format-All z)

pub format-cons : (z : ℤ) → (d : ℕ) × (t : Text) × (format z ≡ d ∷ t)
unfolding format
format-cons (pos n) = format_nat-cons n
format-cons (negsuc n) = (b'-', format_nat (suc n), refl)

scan-format_nat : (n : ℕ) → scan false 0 (format_nat n) ≡ some n
unfolding format_nat scan
scan-format_nat n = scan-digits false (suc n) n [] (omega arith)

signed-digits :
    (c : ℕ) (s : Text) → IsDigit c → signed (c ∷ s) ≡ or_value_error pos (scan false 0 (c ∷ s))
unfolding signed
signed-digits c s h = ground arith

signed-format_nat : (n : ℕ) → signed (format_nat n) ≡ ok (pos n)
signed-format_nat n =
    let (d, t, e) = format_nat-cons n in
    let first : IsDigit d = (rw e at (format_nat-All n)).0 in
    rw e
      (signed-digits d t first ∙ rw (← e) (rw (scan-format_nat n) (unfold or_value_error in refl)))

signed-format : (z : ℤ) → signed (format z) ≡ ok z
unfolding format
signed-format (pos n) = signed-format_nat n
signed-format (negsuc n) = unfold signed or_value_error in rw (scan-format_nat (suc n))

-- Reading back the text of an integer gives the integer.
pub parse-format : (z : ℤ) → parse (format z) ≡ ok z
unfolding parse
parse-format z = rw (strip-HasNoSpace (format z) (format-HasNoSpace z)) (signed-format z)
