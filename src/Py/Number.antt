-- ===== src/Py/Number.antt =====
-- Python's integers beside `int` and `str`: the range of a loop, division and remainder. The quotient
-- `int(a / b)` goes by way of a float in Python; below 2 ** 53 it is the integer quotient, cut towards zero.
use cyclone_distributed_task.Prelude.{
  ℕ, zero, suc, ◌-◌, ◌/◌, ◌%◌, ◌≡◌, refl, List, [], ◌∷◌, ℤ, pos, negsuc, length, arith,
}
use cyclone_distributed_task.Py.Result.{Result, ok, err, zero_division_error}

-- `max(z, 0)`, the number of rounds of `for _ in range(z)`
abbrev pub rounds : ℤ → ℕ
rounds (pos n) = n
rounds (negsuc n) = 0

abbrev pub opposite : ℕ → ℤ
opposite zero = pos 0
opposite (suc n) = negsuc n

-- `int(a / b)`
unfoldable pub quotient : ℤ → ℤ → Result ℤ
quotient a (pos zero) = err zero_division_error
quotient (pos a) (pos (suc b)) = ok (pos (a / suc b))
quotient (negsuc a) (pos (suc b)) = ok (opposite (suc a / suc b))
quotient (pos a) (negsuc b) = ok (opposite (a / suc b))
quotient (negsuc a) (negsuc b) = ok (pos (suc a / suc b))

-- `a % b`, with the sign of `b`
unfoldable pub remainder : ℤ → ℤ → Result ℤ
remainder a (pos zero) = err zero_division_error
remainder (pos a) (pos (suc b)) = ok (pos (a % suc b))
remainder (negsuc a) (pos (suc b)) = ok (pos (b - a % suc b))
remainder (pos a) (negsuc b) = ok (opposite ((suc b - a % suc b) % suc b))
remainder (negsuc a) (negsuc b) = ok (opposite (suc a % suc b))

module _ {ℓ} {A : Type ℓ} where
  -- `n` copies in a row
  abbrev pub replicate : ℕ → A → List A
  replicate zero a = []
  replicate (suc n) a = a ∷ replicate n a

  pub length-replicate : (n : ℕ) (a : A) → length (replicate n a) ≡ n
  length-replicate zero a = refl
  length-replicate (suc n) a = omega (arith, length-replicate n a)
