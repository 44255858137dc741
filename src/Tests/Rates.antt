-- ===== src/Tests/Rates.antt =====
-- rate_limit.py: two requests in ten seconds.
use folioo_ai.Base.{ℕ, ◌≡◌, ◌≤◌, refl, List, [], ◌∷◌, arith}
use folioo_ai.RateLimit.Limiter.{Limits, within, over, check_window, reset}
use folioo_ai.RateLimit.Laws.{accepted, count_in, limit_holds, retry_after_suffices}
use folioo_ai.Base.{some}

abbrev two : Limits
two = record { max_requests = 2; window_seconds = 10 }

abbrev times : List ℕ
times = 1_000_000 ∷ 2_000_000 ∷ 3_000_000 ∷ 11_500_000 ∷ []

-- The third request is refused, the fourth comes when the first has left the window.
passing : accepted two times [] ≡ 1_000_000 ∷ 2_000_000 ∷ 11_500_000 ∷ []
unfolding check_window
passing = refl

refused : (check_window two 3_000_000 (1_000_000 ∷ 2_000_000 ∷ [])).0 ≡ over 9
unfolding check_window
refused = refl

forgotten : reset (some 7) ((7, 1_000_000 ∷ []) ∷ (8, []) ∷ []) ≡ (8, []) ∷ []
unfolding reset
forgotten = refl

limit_holds_example : count_in two 11_500_000 (accepted two times []) ≤ 2
limit_holds_example = limit_holds two 11_500_000 times refl

retry_after_suffices_example :
    (check_window two 12_000_000 (check_window two 3_000_000 (1_000_000 ∷ 2_000_000 ∷ [])).1).0
    ≡ within
retry_after_suffices_example =
    retry_after_suffices two 3_000_000 9 (1_000_000 ∷ 2_000_000 ∷ []) (omega arith) refused
