-- ===== src/Callback/Retries.antt =====
-- The retries of the callback.
use lin_clean_be_fastapi.Prelude.{ℕ, ◌≤◌, ◌||◌, ◌≡◌, Option, arith, if◌then◌else◌}
use lin_clean_be_fastapi.Callback.{is_accepted, max_attempts, attempts, post_analysis_callback}

-- The result is delivered exactly when one of the attempts 1, 2 and 3 is answered with a status of
-- 200 to 299; no request follows an accepted one, and the pauses add up to a second and a half at
-- most.
pub post_analysis_callback-any :
    (post : ℕ → Option ℕ)
    → ((post_analysis_callback post).delivered
        ≡ (is_accepted (post 1) || (is_accepted (post 2) || is_accepted (post 3))))
      × ((post_analysis_callback post).requests
          ≡ (if is_accepted (post 1) then 1 else if is_accepted (post 2) then 2 else 3))
      × ((post_analysis_callback post).slept ≤ 1500)
unfolding post_analysis_callback attempts max_attempts
post_analysis_callback-any post = (ground arith, ground arith, ground arith)
