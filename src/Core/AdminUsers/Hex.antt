-- ===== src/Core/AdminUsers/Hex.antt =====
-- `str(uuid).replace('-', '')`: the 32 hexadecimal digits of a UUID.
use hivewiki_web.Base.{
  ℕ, zero, suc, ◌+◌, ◌/◌, ◌%◌, ◌-◌, ◌≡◌, refl, ◌∙◌, [], ◌∷◌, ◌++◌, arith, ltb, if◌then◌else◌,
  length, length-append,
}
use hivewiki_web.Base.Text.{Text}

hex_digit : ℕ → ℕ
hex_digit n = if ltb n 10 then b'0' + n else b'a' + (n - 10)

-- The last `k` digits of `n`.
hex_digits : ℕ → ℕ → Text
unfolding hex_digit
hex_digits zero n = []
hex_digits (suc k) n = hex_digits k (n / 16) ++ hex_digit (n % 16) ∷ []

unfoldable pub uuid_hex : ℕ → Text
unfolding hex_digits
uuid_hex n = hex_digits 32 n

length-hex_digits : (k n : ℕ) → length (hex_digits k n) ≡ k
unfolding hex_digits
length-hex_digits zero n = refl
length-hex_digits (suc k) n =
    length-append (hex_digits k (n / 16)) (hex_digit (n % 16) ∷ [])
    ∙ omega (arith, length-hex_digits k (n / 16))

-- A UUID has 32 digits.
pub length-uuid_hex : (n : ℕ) → length (uuid_hex n) ≡ 32
unfolding uuid_hex
length-uuid_hex n = length-hex_digits 32 n
