-- ===== src/RateLimit/Limiter.antt =====
-- One key's deque of `SlidingWindowRateLimiter`, oldest first. Times are microseconds of the clock
-- that never goes back; keys are numbers.
use folioo_ai.Base.{
  ℕ, ◌+◌, ◌-◌, ◌*◌, ◌/◌, Option, none, some, List, [], ◌∷◌, ◌==◌, leb, length, if◌then◌else◌,
}

pub record Limits : Type 0 where
  pub max_requests : ℕ
  pub window_seconds : ℕ

abbrev pub window_of : Limits → ℕ
window_of l = l.window_seconds * 1_000_000

-- `while window and window[0] <= cutoff: window.popleft()`; the cutoff, which may be negative, is
-- brought to the other side.
abbrev pub drop_expired : Limits → ℕ → List ℕ → List ℕ
drop_expired l now [] = []
drop_expired l now (t ∷ ts) = if leb (t + window_of l) now then drop_expired l now ts else t ∷ ts

abbrev pub append_hit : List ℕ → ℕ → List ℕ
append_hit [] t = t ∷ []
append_hit (x ∷ xs) t = x ∷ append_hit xs t

-- `max(1, int(retry_after) + 1)`, of the oldest hit that is left.
abbrev pub retry_after : Limits → ℕ → ℕ → ℕ
retry_after l now oldest = (oldest + window_of l - now) / 1_000_000 + 1

-- What `check` returns; `crashed` is the `IndexError` of an empty window under a limit of 0.
pub data Answer : Type 0 where
  within : Answer
  over : ℕ → Answer
  crashed : Answer

abbrev pub refuse : Limits → ℕ → List ℕ → Answer
refuse l now [] = crashed
refuse l now (t ∷ ts) = over (retry_after l now t)

-- `check` on the window of the key.
unfoldable pub check_window : Limits → ℕ → List ℕ → Answer × List ℕ
check_window l now hits =
    let window = drop_expired l now hits in
    if leb l.max_requests (length window)
    then (refuse l now window, window)
    else (within, append_hit window now)

-- `self._hits`
abbrev pub Hits : Type 0
Hits = List (ℕ × List ℕ)

-- `setdefault(key, deque())`
abbrev pub hits_of : ℕ → Hits → List ℕ
hits_of key [] = []
hits_of key ((k, w) ∷ rest) = if k == key then w else hits_of key rest

abbrev pub put_hits : ℕ → List ℕ → Hits → Hits
put_hits key w [] = (key, w) ∷ []
put_hits key w ((k, v) ∷ rest) = if k == key then (key, w) ∷ rest else (k, v) ∷ put_hits key w rest

unfoldable pub check : Limits → ℕ → ℕ → Hits → Answer × Hits
unfolding check_window
check l key now hits =
    let (answer, w) = check_window l now (hits_of key hits) in (answer, put_hits key w hits)

abbrev pub without : ℕ → Hits → Hits
without key [] = []
without key ((k, v) ∷ rest) = if k == key then rest else (k, v) ∷ without key rest

unfoldable pub reset : Option ℕ → Hits → Hits
reset none hits = []
reset (some key) hits = without key hits
