-- ===== src/Receipts/Sha256/Tests.antt =====
-- Test vectors of FIPS 180-2, as receipt-sha256.spec.ts runs them.
use einvoice.Prelude.{◌≡◌, refl, [], lit}
use einvoice.Receipts.Sha256.{sha256_hex}

abc :
    sha256_hex (lit "abc") ≡ lit "ba7816bf8f01cfea414140de5dae2223b00361a396177a9cb410ff61f20015ad"
unfolding sha256_hex
abc = refl

empty : sha256_hex [] ≡ lit "e3b0c44298fc1c149afbf4c8996fb92427ae41e4649b934ca495991b7852b855"
unfolding sha256_hex
empty = refl
