-- ===== src/Operator/Blocks.antt =====
-- The public addresses as those outside the reserved blocks.
use proof_cli_baran.Prelude.{
  ℕ, ◌+◌, ◌*◌, ◌<◌, ◌≡◌, refl, Bool, true, false, not, ◌&&◌, ◌||◌, List, [], ◌∷◌, arith, ltb, leb,
  ◌==◌, if◌then◌else◌, any,
}
use proof_cli_baran.Operator.Addresses.{is_public}

-- A block by its first address and the number of addresses in it, a power of two.
pub record Block : Type 0 where
  pub base : ℕ
  pub size : ℕ

abbrev pub number_of : ℕ → ℕ → ℕ → ℕ → ℕ
number_of a b c d = a * 16777216 + b * 65536 + c * 256 + d

abbrev block : ℕ → ℕ → ℕ → ℕ → Block
block a b c size = record { base = number_of a b c 0; size = size }

-- The blocks of addresses that are not public, as their registry lists them: 0/8, 10/8, 127/8, 100.64/10,
-- 169.254/16, 172.16/12, 192.168/16, 192.0.0/24, 192.0.2/24, 198.18/15, 198.51.100/24, 203.0.113/24 and 224/3.
abbrev pub reserved : List Block
reserved =
    block 0 0 0 16777216
    ∷ block 10 0 0 16777216
    ∷ block 127 0 0 16777216
    ∷ block 100 64 0 4194304
    ∷ block 169 254 0 65536
    ∷ block 172 16 0 1048576
    ∷ block 192 168 0 65536
    ∷ block 192 0 0 256
    ∷ block 192 0 2 256
    ∷ block 198 18 0 131072
    ∷ block 198 51 100 256
    ∷ block 203 0 113 256
    ∷ block 224 0 0 536870912
    ∷ []

abbrev pub in_block : ℕ → Block → Bool
in_block x b = leb b.base x && ltb x (b.base + b.size)

-- The tests of the source one after another are the negation of a disjunction; the last one adds nothing
-- where the one before it implies it.
tests_in_turn :
    (p0 p1 p2 p3 p4 p5 p6 p7 p8 p9 p10 p11 p12 last : Bool)
    → (last ≡ true → p12 ≡ true)
    → (if p0 || p1 || p2
        then false
        else if p3
        then false
        else if p4
        then false
        else if p5
        then false
        else if p6
        then false
        else if p7
        then false
        else if p8
        then false
        else if p9
        then false
        else if p10
        then false
        else if p11
        then false
        else if p12
        then false
        else if last
        then false
        else true)
      ≡ not (
          p0
          || (p1
              || (p2
                  || (p3
                      || (p4
                          || (p5
                              || (p6
                                  || (p7 || (p8 || (p9 || (p10 || (p11 || (p12 || false)))))))))))))
tests_in_turn true _ _ _ _ _ _ _ _ _ _ _ _ _ h = refl
tests_in_turn false true _ _ _ _ _ _ _ _ _ _ _ _ h = refl
tests_in_turn false false true _ _ _ _ _ _ _ _ _ _ _ h = refl
tests_in_turn false false false true _ _ _ _ _ _ _ _ _ _ h = refl
tests_in_turn false false false false true _ _ _ _ _ _ _ _ _ h = refl
tests_in_turn false false false false false true _ _ _ _ _ _ _ _ h = refl
tests_in_turn false false false false false false true _ _ _ _ _ _ _ h = refl
tests_in_turn false false false false false false false true _ _ _ _ _ _ h = refl
tests_in_turn false false false false false false false false true _ _ _ _ _ h = refl
tests_in_turn false false false false false false false false false true _ _ _ _ h = refl
tests_in_turn false false false false false false false false false false true _ _ _ h = refl
tests_in_turn false false false false false false false false false false false true _ _ h = refl
tests_in_turn false false false false false false false false false false false false true _ h =
    refl
tests_in_turn false false false false false false false false false false false false false true h =
    absurd (cc (h refl))
tests_in_turn false false false false false false false false false false false false false false
      h =
    refl

module _ (a b c d : ℕ) (ha : a < 256) (hb : b < 256) (hc : c < 256) (hd : d < 256) where
  in_block_0 : in_block (number_of a b c d) (block 0 0 0 16777216) ≡ (a == 0)
  in_block_0 = ground arith

  in_block_10 : in_block (number_of a b c d) (block 10 0 0 16777216) ≡ (a == 10)
  in_block_10 = ground arith

  in_block_127 : in_block (number_of a b c d) (block 127 0 0 16777216) ≡ (a == 127)
  in_block_127 = ground arith

  in_block_100 :
      in_block (number_of a b c d) (block 100 64 0 4194304) ≡ (a == 100 && leb 64 b && leb b 127)
  in_block_100 = ground arith

  in_block_169 : in_block (number_of a b c d) (block 169 254 0 65536) ≡ (a == 169 && b == 254)
  in_block_169 = ground arith

  in_block_172 :
      in_block (number_of a b c d) (block 172 16 0 1048576) ≡ (a == 172 && leb 16 b && leb b 31)
  in_block_172 = ground arith

  in_block_192_168 : in_block (number_of a b c d) (block 192 168 0 65536) ≡ (a == 192 && b == 168)
  in_block_192_168 = ground arith

  in_block_192_0_0 :
      in_block (number_of a b c d) (block 192 0 0 256) ≡ (a == 192 && b == 0 && c == 0)
  in_block_192_0_0 = ground arith

  in_block_192_0_2 :
      in_block (number_of a b c d) (block 192 0 2 256) ≡ (a == 192 && b == 0 && c == 2)
  in_block_192_0_2 = ground arith

  in_block_198_18 :
      in_block (number_of a b c d) (block 198 18 0 131072) ≡ (a == 198 && (b == 18 || b == 19))
  in_block_198_18 = ground arith

  in_block_198_51 :
      in_block (number_of a b c d) (block 198 51 100 256) ≡ (a == 198 && b == 51 && c == 100)
  in_block_198_51 = ground arith

  in_block_203 :
      in_block (number_of a b c d) (block 203 0 113 256) ≡ (a == 203 && b == 0 && c == 113)
  in_block_203 = ground arith

  in_block_224 : in_block (number_of a b c d) (block 224 0 0 536870912) ≡ (leb 224 a)
  in_block_224 = ground arith

  -- An address is public exactly when, as a number of 32 bits, it is in none of the reserved blocks.
  pub is_public_iff : is_public a b c d ≡ not (any (in_block (number_of a b c d)) reserved)
  unfolding is_public
  is_public_iff =
      rw
        (
          in_block_0, in_block_10, in_block_127, in_block_100, in_block_169, in_block_172,
          in_block_192_168, in_block_192_0_0, in_block_192_0_2, in_block_198_18, in_block_198_51,
          in_block_203, in_block_224,
        )
        (tests_in_turn (a == 0) (a == 10) (a == 127) (a == 100 && leb 64 b && leb b 127)
          (a == 169 && b == 254) (a == 172 && leb 16 b && leb b 31) (a == 192 && b == 168)
          (a == 192 && b == 0 && c == 0) (a == 192 && b == 0 && c == 2)
          (a == 198 && (b == 18 || b == 19)) (a == 198 && b == 51 && c == 100)
          (a == 203 && b == 0 && c == 113) (leb 224 a)
          (a == 255 && b == 255 && c == 255 && d == 255) (λ h. ground arith))
