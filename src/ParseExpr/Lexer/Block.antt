-- ===== src/ParseExpr/Lexer/Block.antt =====
-- The block that _parse_alloc of commondb/parseexpr.c collects a word in.
use dudld.Common.{ℕ, zero, suc, ◌+◌, ◌<◌, ◌≤◌, ◌≡◌, ◌≢◌, ◌↔◌, ◌⊎◌, inl, refl, arith}
use dudld.ParseExpr.Lexer.{alloc_block}

alloc_block-cases :
    (n : ℕ)
    → ((n ≤ 5) × ((alloc_block n).0 ≡ 5) × ((alloc_block n).1 ≡ 5))
      ⊎ ((5 < n) × ((alloc_block n).0 ≡ (alloc_block n).1 + 1) × (n ≤ (alloc_block n).1))
unfolding alloc_block
alloc_block-cases zero = inl (omega arith, refl, refl)
alloc_block-cases (suc n) = ground (arith, alloc_block-cases n)

-- The character at index `n` is stored inside the block that holds it. The 0 behind a word of `n`
-- characters is stored inside the block just where `n` is not 5.
pub alloc_block-bounds :
    (n : ℕ) → (n < (alloc_block (suc n)).0) × ((n < (alloc_block n).0) ↔ (n ≢ 5))
alloc_block-bounds n = (
  ground (arith, alloc_block-cases (suc n)),
  ((λ h e. ground (arith, alloc_block-cases n)), λ h. ground (arith, alloc_block-cases n)),
)
