-- ===== src/RateLimit/Laws.antt =====
-- The limit holds in every window.
use mathlib.Core.Path.{subst}
use folioo_ai.Base.{
  ℕ, suc, ◌+◌, ◌*◌, ◌≤◌, ◌≡◌, refl, sym, ap, ◌∙◌, Bool, true, false, List, [], ◌∷◌, arith, inl, inr,
  Bool-cases, ◌==◌, leb, leb-false, ltb, ◌&&◌, length, if◌then◌else◌,
}
use folioo_ai.RateLimit.Limiter.{
  Limits, window_of, drop_expired, append_hit, retry_after, Answer, within, over, crashed, refuse,
  check_window, Hits, hits_of, put_hits, check,
}

abbrev pub passed : Answer → ℕ → List ℕ → List ℕ
passed within t rest = t ∷ rest
passed (over n) t rest = rest
passed crashed t rest = rest

-- The times of the requests that pass, of requests at the given times.
abbrev pub accepted : Limits → List ℕ → List ℕ → List ℕ
accepted l [] hits = []
accepted l (t ∷ ts) hits =
    passed (check_window l t hits).0 t (accepted l ts (check_window l t hits).1)

-- How many of the times lie in the window that ends at `c`.
abbrev pub count_in : Limits → ℕ → List ℕ → ℕ
count_in l c [] = 0
count_in l c (t ∷ ts) = if ltb c (t + window_of l) then suc (count_in l c ts) else count_in l c ts

abbrev pub none_after : ℕ → List ℕ → Bool
none_after c [] = true
none_after c (t ∷ ts) = leb t c && none_after c ts

module _ (l : Limits) where
  count_in-le : (c : ℕ) (ts : List ℕ) → count_in l c ts ≤ length ts
  count_in-le c [] = omega arith
  count_in-le c (t ∷ ts) = ground (arith, count_in-le c ts)

  count_in-drop_expired :
      (c now : ℕ) (ts : List ℕ) → now ≤ c → count_in l c (drop_expired l now ts) ≡ count_in l c ts
  count_in-drop_expired c now [] h = refl
  count_in-drop_expired c now (t ∷ ts) h = ground (arith, count_in-drop_expired c now ts h)

  length-drop_expired : (now : ℕ) (ts : List ℕ) → length (drop_expired l now ts) ≤ length ts
  length-drop_expired now [] = omega arith
  length-drop_expired now (t ∷ ts) = ground (arith, length-drop_expired now ts)

  count_in-append_hit :
      (c t : ℕ) (ts : List ℕ) → count_in l c (append_hit ts t) ≡ count_in l c (t ∷ ts)
  count_in-append_hit c t [] = refl
  count_in-append_hit c t (x ∷ ts) = ground (arith, count_in-append_hit c t ts)

  length-append_hit : (t : ℕ) (ts : List ℕ) → length (append_hit ts t) ≡ suc (length ts)
  length-append_hit t [] = refl
  length-append_hit t (x ∷ ts) = ap suc (length-append_hit t ts)

  check_refuses :
      (t : ℕ) (hits : List ℕ)
      → leb l.max_requests (length (drop_expired l t hits)) ≡ true
      → check_window l t hits ≡ (refuse l t (drop_expired l t hits), drop_expired l t hits)
  unfolding check_window
  check_refuses t hits e = rw e refl

  check_passes :
      (t : ℕ) (hits : List ℕ)
      → leb l.max_requests (length (drop_expired l t hits)) ≡ false
      → check_window l t hits ≡ (within, append_hit (drop_expired l t hits) t)
  unfolding check_window
  check_passes t hits e = rw e refl

  passed-refuse : (t : ℕ) (window rest : List ℕ) → passed (refuse l t window) t rest ≡ rest
  passed-refuse t [] rest = refl
  passed-refuse t (x ∷ xs) rest = refl

  abbrev go_on : ℕ → List ℕ → Answer × List ℕ → List ℕ
  go_on t ts x = passed x.0 t (accepted l ts x.1)

  accepted_lem :
      (c : ℕ) (times hits : List ℕ)
      → none_after c times ≡ true
      → length hits ≤ l.max_requests
      → count_in l c hits + count_in l c (accepted l times hits) ≤ l.max_requests
  accepted_lem c [] hits n h = omega (arith, count_in-le c hits)
  accepted_lem c (t ∷ ts) hits n h =
      let d = drop_expired l t hits in
      let t_le : t ≤ c = ground arith in
      let same = count_in-drop_expired c t hits t_le in
      let short = length-drop_expired t hits in
      elim (Bool-cases (leb l.max_requests (length d))) [
        | inl e ↦
            let r =
              ap (count_in l c)
                (ap (go_on t ts) (check_refuses t hits e) ∙ passed-refuse t d (accepted l ts d)) in
            omega (arith, r, same, accepted_lem c ts d (ground arith) (omega (arith, short)))
        | inr e ↦
            let r = ap (count_in l c) (ap (go_on t ts) (check_passes t hits e)) in
            let w = append_hit d t in
            let room = leb-false l.max_requests (length d) e in
            let rest =
              accepted_lem c ts w (ground arith) (omega (arith, room, length-append_hit t d)) in
            ground (arith, r, same, count_in-append_hit c t d, rest)
      ]

  -- In every window at most `max_requests` requests of a key pass: at whatever times requests come,
  -- and for every moment `c` that is before none of them, at most so many of those that pass lie in
  -- the window that ends at `c`.
  pub limit_holds :
      (c : ℕ) (times : List ℕ)
      → none_after c times ≡ true
      → count_in l c (accepted l times []) ≤ l.max_requests
  limit_holds c times n = omega (arith, accepted_lem c times [] n (omega arith))

  again :
      (now n : ℕ) (window : List ℕ)
      → length window ≤ l.max_requests
      → refuse l now window ≡ over n
      → leb l.max_requests (length (drop_expired l (now + n * 1_000_000) window)) ≡ false
  again now n [] h e = absurd (ground arith)
  again now n (x ∷ xs) h e =
      let n_is : retry_after l now x ≡ n = ground (arith, e) in
      let due : x + window_of l ≤ now + n * 1_000_000 = omega (arith, n_is) in
      ground (arith, due, length-drop_expired (now + n * 1_000_000) xs)

  -- A refused request passes if it comes again after the seconds that it is told, where no other
  -- comes meanwhile.
  pub retry_after_suffices :
      (now n : ℕ) (hits : List ℕ)
      → length hits ≤ l.max_requests
      → (check_window l now hits).0 ≡ over n
      → (check_window l (now + n * 1_000_000) (check_window l now hits).1).0 ≡ within
  retry_after_suffices now n hits h e =
      let d = drop_expired l now hits in
      elim (Bool-cases (leb l.max_requests (length d))) [
        | inl r ↦
            let c = check_refuses now hits r in
            let refused : refuse l now d ≡ over n = sym (ap (λ x. x.0) c) ∙ e in
            let room = again now n d (omega (arith, h, length-drop_expired now hits)) refused in
            subst (λ x. (check_window l (now + n * 1_000_000) x.1).0 ≡ within) (sym c)
              (ap (λ x. x.0) (check_passes (now + n * 1_000_000) d room))
        | inr r ↦ absurd (ground (arith, check_passes now hits r, e))
      ]

hits_of-put_hits :
    (key other : ℕ) (w : List ℕ) (hits : Hits)
    → hits_of other (put_hits key w hits) ≡ (if other == key then w else hits_of other hits)
hits_of-put_hits key other w [] = ground arith
hits_of-put_hits key other w ((k, v) ∷ rest) = ground (arith, hits_of-put_hits key other w rest)

-- A check counts for its own user alone: it answers by that user's window, which it replaces, and
-- every other user's window is what it was.
pub check_by_key :
    (l : Limits) (key other now : ℕ) (hits : Hits)
    → ((check l key now hits).0 ≡ (check_window l now (hits_of key hits)).0)
      × (hits_of other (check l key now hits).1 ≡ (
          if other == key then (check_window l now (hits_of key hits)).1 else hits_of other hits))
unfolding check
check_by_key l key other now hits = (refl, hits_of-put_hits key other _ hits)
