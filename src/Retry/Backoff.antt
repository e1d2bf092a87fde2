-- ===== src/Retry/Backoff.antt =====
-- The pauses of tunnel/src/main.rs.
use p2p_llm_tunnel.Prelude.{ℕ, zero, suc, ◌*◌, ◌≤◌, ◌^◌, min, ◌≡◌, refl, arith}
use p2p_llm_tunnel.Retry.{backoff, initial_backoff_secs, max_backoff_secs}

-- The pause after each of the first five failures doubles; from the sixth on it is the cap.
pub backoff_lem :
    (n : ℕ)
    → (n ≤ 4 → backoff (suc n) ≡ initial_backoff_secs * 2 ^ n)
      × (5 ≤ n → backoff (suc n) ≡ max_backoff_secs)
unfolding backoff
backoff_lem zero = ((λ h. refl), (λ h. absurd (omega arith)))
backoff_lem (suc zero) = ((λ h. refl), (λ h. absurd (omega arith)))
backoff_lem (suc (suc zero)) = ((λ h. refl), (λ h. absurd (omega arith)))
backoff_lem (suc (suc (suc zero))) = ((λ h. refl), (λ h. absurd (omega arith)))
backoff_lem (suc (suc (suc (suc zero)))) = ((λ h. refl), (λ h. absurd (omega arith)))
backoff_lem (suc (suc (suc (suc (suc zero))))) = ((λ h. absurd (omega arith)), (λ h. refl))
backoff_lem (suc (suc (suc (suc (suc (suc zero)))))) = ((λ h. absurd (omega arith)), (λ h. refl))
backoff_lem (suc (suc (suc (suc (suc (suc (suc zero))))))) =
    ((λ h. absurd (omega arith)), (λ h. refl))
backoff_lem (suc (suc (suc (suc (suc (suc (suc (suc zero)))))))) =
    ((λ h. absurd (omega arith)), (λ h. refl))
backoff_lem (suc (suc (suc (suc (suc (suc (suc (suc (suc n))))))))) =
    let e : min (suc (suc (suc (suc (suc (suc (suc (suc (suc (suc n)))))))))) 10 ≡ 10 =
      omega arith in
    ((λ h. absurd (omega arith)), (λ h. rw e))
