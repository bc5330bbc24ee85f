-- ===== src/Proto/Digest.antt =====
-- crates/tideline-proto/src/hash.rs: a SHA-256 digest and its hexadecimal text.
pub mod Hex
use Prim.Native.Nat.{bit_or}
use tideline.Base.{
  ℕ, ◌+◌, ◌-◌, ◌*◌, ◌/◌, ◌%◌, ◌<◌, ◌≡◌, Bool, true, false, ◌&&◌, Option, none, some, List, [], ◌∷◌,
  leb, ltb, ◌==◌, if◌then◌else◌, length, replicate, All, dec_bytes, ite,
}

-- `Hash([u8; 32])`: its bytes.
abbrev pub Hash : Type 0
Hash = List ℕ

-- The bytes of an array `[u8; 32]`.
pub record IsHash (h : Hash) : Type 0 where
  pub width : length h ≡ 32
  pub bytes : All (λ b. b < 256) h

abbrev pub zero_hash : Hash
zero_hash = replicate 32 0

unfoldable pub is_zero : Hash → Bool
is_zero h = ite (dec_bytes h zero_hash) true false

-- `HEX[n]`
unfoldable pub hex_char : ℕ → ℕ
hex_char n = if ltb n 10 then b'0' + n else b'a' + (n - 10)

unfoldable pub to_hex : Hash → List ℕ
unfolding hex_char
to_hex [] = []
to_hex (b ∷ bs) = hex_char (b / 16) ∷ hex_char (b % 16) ∷ to_hex bs

-- `(c as char).to_digit(16)`
unfoldable pub to_digit : ℕ → Option ℕ
to_digit c =
    if leb b'0' c && leb c b'9'
    then some (c - b'0')
    else if leb b'a' c && leb c b'f'
    then some (c - b'a' + 10)
    else if leb b'A' c && leb c b'F'
    then some (c - b'A' + 10)
    else none

abbrev with_digits : Option ℕ → Option ℕ → Option Hash → Option Hash
with_digits (some hi) (some lo) (some out) = some ((bit_or (hi * 16) lo % 256) ∷ out)
with_digits _ _ _ = none

-- The loop over the slots of `out`, two characters to a byte.
unfoldable pub from_pairs : List ℕ → Option Hash
unfolding to_digit
from_pairs (hi ∷ lo ∷ rest) = with_digits (to_digit hi) (to_digit lo) (from_pairs rest)
from_pairs _ = some []

unfoldable pub from_hex : List ℕ → Option Hash
unfolding from_pairs
from_hex s = if length s == 64 then from_pairs s else none
