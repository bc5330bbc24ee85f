-- ===== src/Proto/Digest/Hex.antt =====
-- crates/tideline-proto/src/hash.rs: `to_hex` and `from_hex`, one after the other.
use Prim.Native.Nat.{bit_or}
use tideline.Base.{
  ℕ, zero, suc, ◌*◌, ◌/◌, ◌%◌, ◌<◌, ◌≡◌, refl, Bool, true, ◌&&◌, Option, none, some, List, [], ◌∷◌,
  arith, ◌==◌, length, All, ap, subst, some_cancel, if_some, ==→eq, ◌∙◌,
}
use tideline.Proto.Digest.{
  Hash, IsHash, hex_char, to_hex, to_digit, with_digits, from_pairs, from_hex,
}

all_below : ℕ → (ℕ → Bool) → Bool
all_below zero test = true
all_below (suc n) test = test n && all_below n test

all_below_sound :
    (n : ℕ) (test : ℕ → Bool) (x : ℕ) → all_below n test ≡ true → x < n → test x ≡ true
unfolding all_below
all_below_sound zero test x h lt = absurd (omega arith)
all_below_sound (suc n) test x h lt = ground (arith, all_below_sound n test x)

to_digit-hex_char : (n : ℕ) → n < 16 → to_digit (hex_char n) ≡ some n
unfolding to_digit hex_char
to_digit-hex_char n h = ground arith

nibbles_table : all_below 256 (λ b. bit_or (b / 16 * 16) (b % 16) % 256 == b) ≡ true
unfolding all_below
nibbles_table = refl

nibbles : (b : ℕ) → b < 256 → bit_or (b / 16 * 16) (b % 16) % 256 ≡ b
nibbles b h =
    ground
      (arith, all_below_sound 256 (λ b. bit_or (b / 16 * 16) (b % 16) % 256 == b) b nibbles_table h)

length-to_hex : (h : Hash) → length (to_hex h) ≡ 2 * length h
unfolding to_hex
length-to_hex [] = omega arith
length-to_hex (b ∷ bs) = omega (arith, length-to_hex bs)

from_pairs-to_hex : (h : Hash) → All (λ b. b < 256) h → from_pairs (to_hex h) ≡ some h
unfolding from_pairs to_hex
from_pairs-to_hex [] a = refl
from_pairs-to_hex (b ∷ bs) a = rw (to_digit-hex_char (b / 16) (omega arith)) (
    rw (to_digit-hex_char (b % 16) (omega arith))
      (rw (from_pairs-to_hex bs a.1) (rw (nibbles b a.0))))

from_hex_of_width : (s : List ℕ) → length s ≡ 64 → from_hex s ≡ from_pairs s
unfolding from_hex
from_hex_of_width s e = ground arith

width_of_from_hex :
    (s : List ℕ) (h : Hash) → from_hex s ≡ some h → (length s ≡ 64) × (from_pairs s ≡ some h)
unfolding from_hex
width_of_from_hex s h e =
    let (t, q) = if_some (length s == 64) (from_pairs s) e in (==→eq (length s) 64 t, q)

-- A digest that is printed and read again is the digest.
pub from_hex-to_hex : (h : Hash) → IsHash h → from_hex (to_hex h) ≡ some h
from_hex-to_hex h v =
    from_hex_of_width (to_hex h) (omega (arith, length-to_hex h)) ∙ from_pairs-to_hex h v.bytes

with_digits-some :
    (hi lo : Option ℕ) (out : Option Hash) (h : Hash)
    → with_digits hi lo out ≡ some h
    → (b : ℕ) × (rest : Hash) × (b < 256) × (out ≡ some rest) × (b ∷ rest ≡ h)
with_digits-some (some a) (some b) (some rest) h e =
    (bit_or (a * 16) b % 256, rest, omega arith, refl, some_cancel e)
with_digits-some (some a) (some b) none h e = absurd (ground arith)
with_digits-some (some a) none out h e = absurd (ground arith)
with_digits-some none lo out h e = absurd (ground arith)

-- The loop reads one byte from each two characters.
from_pairs-IsHash :
    (n : ℕ) (s : List ℕ) (h : Hash)
    → length s ≡ n * 2
    → from_pairs s ≡ some h
    → (length h ≡ n) × All (λ b. b < 256) h
unfolding from_pairs
from_pairs-IsHash zero [] h e q =
    subst (λ h. (length h ≡ 0) × All (λ b. b < 256) h) (some_cancel q) (refl, tt)
from_pairs-IsHash (suc n) [] h e q = absurd (omega arith)
from_pairs-IsHash zero (a ∷ []) h e q = absurd (omega arith)
from_pairs-IsHash (suc n) (a ∷ []) h e q = absurd (omega arith)
from_pairs-IsHash zero (a ∷ b ∷ s) h e q = absurd (omega arith)
from_pairs-IsHash (suc n) (a ∷ b ∷ s) h e q =
    let (byte, rest, fits, out, same) =
      with_digits-some (to_digit a) (to_digit b) (from_pairs s) h q in
    let ih = from_pairs-IsHash n s rest (omega arith) out in
    subst (λ h. (length h ≡ suc n) × All (λ b. b < 256) h) same (ap suc ih.0, (fits, ih.1))

-- What is read from a text is a digest of 32 bytes, and is the one that prints and reads as itself.
pub from_hex-IsHash :
    (s : List ℕ) (h : Hash)
    → from_hex s ≡ some h
    → (length s ≡ 64) × IsHash h × (from_hex (to_hex h) ≡ some h)
from_hex-IsHash s h e =
    let (w, q) = width_of_from_hex s h e in
    let (n, bs) = from_pairs-IsHash 32 s h w q in
    (w, record { width = n; bytes = bs }, from_hex-to_hex h (record { width = n; bytes = bs }))
