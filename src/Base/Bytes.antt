-- ===== src/Base/Bytes.antt =====
-- `u64::to_be_bytes` and the signed reading of a `u64` that is cast to `i64`.
use tideline.Base.{
  ℕ, zero, suc, ◌+◌, ◌/◌, ◌%◌, ◌^◌, ◌<◌, ◌≡◌, refl, Bool, List, [], ◌∷◌, ◌++◌, arith, leb, length,
  length-append, append-eq_parts,
}
use native.Mathlib.Nat.{pow-suc}

abbrev pub u64_mod : ℕ
u64_mod = 2 ^ 64

-- The last `k` base-256 digits, most significant first.
unfoldable pub be_bytes : ℕ → ℕ → List ℕ
be_bytes zero n = []
be_bytes (suc k) n = be_bytes k (n / 256) ++ n % 256 ∷ []

abbrev pub to_be_bytes : ℕ → List ℕ
to_be_bytes n = be_bytes 8 n

-- `a as i64 <= b as i64`: the order of the two bit patterns as signed numbers.
abbrev pub le_i64 : ℕ → ℕ → Bool
le_i64 a b = leb ((a + 2 ^ 63) % 2 ^ 64) ((b + 2 ^ 63) % 2 ^ 64)

pub length-be_bytes : (k n : ℕ) → length (be_bytes k n) ≡ k
unfolding be_bytes
length-be_bytes zero n = refl
length-be_bytes (suc k) n =
    omega (arith, length-append (be_bytes k (n / 256)) (n % 256 ∷ []), length-be_bytes k (n / 256))

be_bytes_cancel : (k m n : ℕ) → m < 256 ^ k → n < 256 ^ k → be_bytes k m ≡ be_bytes k n → m ≡ n
unfolding be_bytes
be_bytes_cancel zero m n hm hn e = omega arith
be_bytes_cancel (suc k) m n hm hn e =
    let parts =
      append-eq_parts (be_bytes k (m / 256)) (be_bytes k (n / 256)) (m % 256 ∷ []) (n % 256 ∷ [])
        (omega (arith, length-be_bytes k (m / 256), length-be_bytes k (n / 256))) e in
    let low : m % 256 ≡ n % 256 = cc (parts.1) in
    let high : m / 256 ≡ n / 256 =
      be_bytes_cancel k (m / 256) (n / 256) (omega (arith, pow-suc 256 k))
        (omega (arith, pow-suc 256 k)) parts.0 in
    omega arith

-- A `u64` is read back from its eight bytes.
pub to_be_bytes_cancel :
    (m n : ℕ) → m < u64_mod → n < u64_mod → to_be_bytes m ≡ to_be_bytes n → m ≡ n
to_be_bytes_cancel m n hm hn e = be_bytes_cancel 8 m n (omega arith) (omega arith) e
