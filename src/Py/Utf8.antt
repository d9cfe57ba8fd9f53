-- ===== src/Py/Utf8.antt =====
-- The reading of a file as text, with `encoding='UTF-8'`: the strict decoder, byte by byte, and the translation of the
-- line ends `\r` and `\r\n` into `\n`.
use cyclone_distributed_task.Prelude.{
  ◌≡◌, refl, false, Bool, ◌&&◌, ℕ, zero, suc, ◌+◌, ◌-◌, ◌*◌, List, [], ◌∷◌, ◌++◌, Text, leb, ltb,
  nat_beq, if◌then◌else◌,
}
use cyclone_distributed_task.Py.Result.{Result, ok, err, value_error, ◌>>=◌}
use cyclone_distributed_task.Py.Number.{replicate}

-- The bytes that are missing of a character, what is known of its code, and the range of the next byte
pub record Decoder : Type 0 where
  pub missing : ℕ
  pub code : ℕ
  pub low : ℕ
  pub high : ℕ

abbrev pub between : Decoder
between = record { missing = 0; code = 0; low = 128; high = 191 }

abbrev within : ℕ → ℕ → ℕ → Bool
within low high b = leb low b && leb b high

-- Behind the first byte of a character
abbrev awaits : ℕ → ℕ → ℕ → ℕ → Result (Text × Decoder)
awaits missing code low high =
    ok ([], record { missing = missing; code = code; low = low; high = high })

first_byte : ℕ → Result (Text × Decoder)
first_byte b =
    if ltb b 128
    then ok (b ∷ [], between)
    else if within 194 223 b
    then awaits 1 (b - 192) 128 191
    else if nat_beq b 224
    then awaits 2 0 160 191
    else if nat_beq b 237
    then awaits 2 13 128 159
    else if within 225 239 b
    then awaits 2 (b - 224) 128 191
    else if nat_beq b 240
    then awaits 3 0 144 191
    else if within 241 243 b
    then awaits 3 (b - 240) 128 191
    else if nat_beq b 244
    then awaits 3 4 128 143
    else err value_error

-- One more byte of a character of which this many are missing behind it
next_byte : Decoder → ℕ → ℕ → Result (Text × Decoder)
next_byte d zero b =
    if within d.low d.high b then ok ((d.code * 64 + (b - 128)) ∷ [], between) else err value_error
next_byte d (suc missing) b =
    if within d.low d.high b
    then awaits (suc missing) (d.code * 64 + (b - 128)) 128 191
    else err value_error

take_byte : Decoder → ℕ → ℕ → Result (Text × Decoder)
unfolding first_byte next_byte
take_byte d zero b = first_byte b
take_byte d (suc missing) b = next_byte d missing b

unfoldable pub decode_from : Decoder → List ℕ → Result Text
unfolding take_byte
decode_from d [] = if nat_beq d.missing 0 then ok [] else err value_error
decode_from d (b ∷ bytes) = do
  step ← take_byte d d.missing b
  rest ← decode_from step.1 bytes
  ok (step.0 ++ rest)

-- The flag says that the character before was `\r`.
unfoldable pub translate_from : Bool → Text → Text
translate_from after_return [] = []
translate_from after_return (c ∷ text) =
    let rest = translate_from (nat_beq c 13) text in
    if nat_beq c 13 then 10 ∷ rest else if after_return && nat_beq c 10 then rest else c ∷ rest

-- The text of the bytes of a file
unfoldable pub text_of : List ℕ → Result Text
text_of bytes = do text ← decode_from between bytes; ok (translate_from false text)

decode-letters : (n : ℕ) → decode_from between (replicate n b'A') ≡ ok (replicate n b'A')
unfolding decode_from
decode-letters zero = refl
decode-letters (suc n) = rw (decode-letters n) refl

translate-letters : (n : ℕ) → translate_from false (replicate n b'A') ≡ replicate n b'A'
unfolding translate_from
translate-letters zero = refl
translate-letters (suc n) = rw (translate-letters n) refl

-- ASCII letters are their own text.
pub text_of-letters : (n : ℕ) → text_of (replicate n b'A') ≡ ok (replicate n b'A')
unfolding text_of
text_of-letters n = rw (decode-letters n, translate-letters n) refl
