-- ===== src/Receipts/Sha256/Hex.antt =====
-- The form of the digest of packages/eta-core/src/receipts/receipt-sha256.ts.
use einvoice.Prelude.{
  ℕ, ◌+◌, ◌%◌, ◌≡◌, refl, ◌∙◌, Bool, true, ◌&&◌, ◌||◌, ◌++◌, Text, length, length-append,
  all-append, all, leb, arith,
}
use einvoice.Receipts.Sha256.{
  State, hex_digit, hex8, state_hex, utf8, padded, words, block_count, blocks, initial, sha256_hex,
}

-- `[0-9a-f]`
abbrev pub is_hex : ℕ → Bool
is_hex c = (leb b'0' c && leb c b'9') || (leb b'a' c && leb c b'f')

-- A run of `k` hexadecimal digits.
abbrev IsHex : ℕ → Text → Type 0
IsHex k s = (length s ≡ k) × (all is_hex s ≡ true)

hex_digit-hex : (x : ℕ) → is_hex (hex_digit (x % 16)) ≡ true
hex_digit-hex x = ground arith

hex8-IsHex : (x : ℕ) → IsHex 8 (hex8 x)
unfolding hex8
hex8-IsHex x = (refl, simp hex_digit-hex)

IsHex-append : (j k : ℕ) (s t : Text) → IsHex j s → IsHex k t → IsHex (j + k) (s ++ t)
IsHex-append j k s t (p, a) (q, b) =
    (omega (arith, length-append s t), all-append is_hex s t ∙ rw a b)

state_hex-IsHex : (s : State) → IsHex 64 (state_hex s)
unfolding state_hex
state_hex-IsHex s = IsHex-append 8 56 _ _ (hex8-IsHex s.a) (
    IsHex-append 8 48 _ _ (hex8-IsHex s.b) (
      IsHex-append 8 40 _ _ (hex8-IsHex s.c) (
        IsHex-append 8 32 _ _ (hex8-IsHex s.d) (
          IsHex-append 8 24 _ _ (hex8-IsHex s.e) (
            IsHex-append 8 16 _ _ (hex8-IsHex s.f)
              (IsHex-append 8 8 _ _ (hex8-IsHex s.g) (hex8-IsHex s.h)))))))

-- The digest of any text is written in 64 lower-case hexadecimal digits.
pub sha256_hex-IsHex :
    (message : Text) → (length (sha256_hex message) ≡ 64) × (all is_hex (sha256_hex message) ≡ true)
unfolding sha256_hex
sha256_hex-IsHex message =
    state_hex-IsHex
      (blocks (block_count (length (utf8 message))) initial (words (padded (utf8 message))))
