-- ===== src/Py/Int.antt =====
-- `str(n)` and `int(s)`. A text outside ASCII is refused; Python also accepts the decimal digits
-- and the white space of other scripts, which no modelled module writes.
pub mod RoundTrip
use cyclone_distributed_task.Prelude.{
  ℕ, zero, suc, ◌+◌, ◌-◌, ◌*◌, ◌/◌, ◌%◌, ◌≡◌, refl, Bool, true, false, ◌&&◌, Option, none, some, [],
  ◌∷◌, Text, ℤ, pos, negsuc, leb, ltb, nat_beq, codes, if◌then◌else◌,
}
use cyclone_distributed_task.Py.Result.{Result, ok, err, value_error}
use cyclone_distributed_task.Py.Str.{strip}

-- The digits of `n` in front of `out`. Each round divides by ten, so `n < fuel` is enough.
digits : ℕ → ℕ → Text → Text
digits zero n out = out
digits (suc fuel) n out =
    let rest = digits fuel (n / 10) ((b'0' + n % 10) ∷ out) in
    if ltb n 10 then (b'0' + n) ∷ out else rest

-- `str(n)` for n ≥ 0
unfoldable pub format_nat : ℕ → Text
unfolding digits
format_nat n = digits (suc n) n []

-- `str(n)`
unfoldable pub format : ℤ → Text
unfolding format_nat
format (pos n) = format_nat n
format (negsuc n) = b'-' ∷ format_nat (suc n)

abbrev is_digit : ℕ → Bool
is_digit c = leb b'0' c && leb c b'9'

-- Digits, with single underscores between them; `after_digit` tells whether one has been read.
scan : (after_digit : Bool) → ℕ → Text → Option ℕ
scan after_digit n [] = if after_digit then some n else none
scan after_digit n (c ∷ s) =
    let digit = scan true (n * 10 + (c - b'0')) s in
    let underscore = scan false n s in
    if is_digit c then digit else if nat_beq c b'_' && after_digit then underscore else none

or_value_error : (ℕ → ℤ) → Option ℕ → Result ℤ
or_value_error f none = err value_error
or_value_error f (some n) = ok (f n)

abbrev negated : ℕ → ℤ
negated zero = pos 0
negated (suc n) = negsuc n

signed : Text → Result ℤ
unfolding scan or_value_error
signed [] = err value_error
signed (c ∷ s) =
    if nat_beq c b'-'
    then or_value_error negated (scan false 0 s)
    else if nat_beq c b'+'
    then or_value_error pos (scan false 0 s)
    else or_value_error pos (scan false 0 (c ∷ s))

-- `int(s)`
unfoldable pub parse : Text → Result ℤ
unfolding signed strip
parse s = signed (strip s)

parse-literals :
    (parse (codes " -12 ") ≡ ok (negsuc 11))
    × (parse (codes "1_000") ≡ ok (pos 1000))
    × (parse (codes "1__0") ≡ err value_error)
    × (parse (codes "") ≡ err value_error)
unfolding parse
parse-literals = (refl, refl, refl, refl)
