-- ===== src/Gf256/Tests.antt =====
-- Runs of the arithmetic, with the values that src/test_gf256.c expects.
use coding_gateway.Base.{◌<◌, ◌≡◌, refl, arith, none}
use coding_gateway.Gf256.{gf256_add, gf256_mul, gf256_inv, gf256_div}
use coding_gateway.Gf256.Field.{ring_laws, mul-inv}

products :
    (gf256_mul 2 0x80 ≡ 0x1d) × (gf256_mul 3 7 ≡ 9) × (gf256_inv 2 ≡ 0x8e) × (gf256_div 9 0 ≡ none)
unfolding gf256_mul gf256_inv gf256_div
products = (refl, refl, refl, refl)

ring_laws_example :
    (gf256_mul 3 200 < 256)
    × (gf256_mul (gf256_mul 3 200) 77 ≡ gf256_mul 3 (gf256_mul 200 77))
    × (gf256_mul 3 200 ≡ gf256_mul 200 3)
    × (gf256_mul 3 (gf256_add 200 77) ≡ gf256_add (gf256_mul 3 200) (gf256_mul 3 77))
    × (gf256_mul 3 1 ≡ 3)
    × (gf256_mul 3 0 ≡ 0)
ring_laws_example = ring_laws 3 200 77 (omega arith) (omega arith) (omega arith)

mul-inv_example : (gf256_mul 2 (gf256_inv 2) ≡ 1) × (gf256_inv 2 < 256)
mul-inv_example = mul-inv 2 (omega arith) (omega arith)
