-- ===== src/Bridge/History/Blocks.antt =====
-- The logs of the blocks of a range, for the scan of crates/node/src/bridge.rs.
use podseq.Prelude.{ℕ, zero, suc, ◌+◌, ◌≡◌, refl, ap, ◌∙◌, List, [], ◌∷◌, ◌++◌, arith}
use podseq.Bridge.Abi.{RpcLog}

-- The logs of `n` blocks.
unfoldable pub logs_of : (ℕ → List RpcLog) → ℕ → ℕ → List RpcLog
logs_of blocks from zero = []
logs_of blocks from (suc n) = blocks from ++ logs_of blocks (suc from) n

append_assoc : {A : Type 0} (xs ys zs : List A) → xs ++ (ys ++ zs) ≡ (xs ++ ys) ++ zs
append_assoc [] ys zs = refl
append_assoc (x ∷ xs) ys zs = ap (λ t. x ∷ t) (append_assoc xs ys zs)

same_logs :
    (blocks : ℕ → List RpcLog) {from mid n b : ℕ}
    → from ≡ mid
    → n ≡ b
    → logs_of blocks from n ≡ logs_of blocks mid b
same_logs blocks p q = cc

pub logs_of-split :
    (blocks : ℕ → List RpcLog) (from a b mid n : ℕ)
    → mid ≡ from + a
    → n ≡ a + b
    → logs_of blocks from n ≡ logs_of blocks from a ++ logs_of blocks mid b
unfolding logs_of
logs_of-split blocks from zero b mid n p q = same_logs blocks (omega (arith, p)) (omega (arith, q))
logs_of-split blocks from (suc a) b mid zero p q = absurd (omega (arith, q))
logs_of-split blocks from (suc a) b mid (suc n) p q =
    ap (λ t. blocks from ++ t)
      (logs_of-split blocks (suc from) a b mid n (omega (arith, p)) (omega (arith, q)))
    ∙ append_assoc (blocks from) _ _
