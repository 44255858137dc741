-- ===== src/Kakao/Laws/Summary.antt =====
-- `build_summary` against the limit of the callback's text, and the verdict of `send_callback`.
use folioo_ai.Base.{
  Text, rstrip, ℕ, zero, suc, ◌≤◌, ◌<◌, ◌≡◌, ◌⊎◌, refl, ap, ◌∙◌, String, Bool, true, false, Option,
  List, [], ◌∷◌, ◌++◌, arith, inl, inr, length, take, leb, leb→le, leb-false, length-append,
  if◌then◌else◌,
}
use folioo_ai.Kakao.Rows.{Payload}
use folioo_ai.Kakao.Callback.{
  kept_texts, join_paragraphs, clip, summarize, build_summary, build_success_payload, empty_summary,
  ellipsis,
}

length-rstrip : (t : Text) → length (rstrip t) ≤ length t
length-rstrip [] = omega arith
length-rstrip (c ∷ cs) = ground (arith, length-rstrip cs)

length-take : (n : ℕ) (t : Text) → length (take n t) ≤ n
length-take zero t = omega arith
length-take (suc n) [] = omega arith
length-take (suc n) (c ∷ cs) = omega (arith, length-take n cs)

take_all : (n : ℕ) (t : Text) → length t ≤ n → take n t ≡ t
take_all zero [] h = refl
take_all zero (c ∷ cs) h = absurd (omega arith)
take_all (suc n) [] h = refl
take_all (suc n) (c ∷ cs) h = ap (λ l. c ∷ l) (take_all n cs (omega arith))

abbrev pub IsPrefix : Text → Text → Type 0
IsPrefix [] t = Unit
IsPrefix (a ∷ s) [] = ⊥
IsPrefix (a ∷ s) (b ∷ t) = (a ≡ b) × IsPrefix s t

rstrip-IsPrefix : (t : Text) → IsPrefix (rstrip t) t
rstrip-IsPrefix [] = tt
rstrip-IsPrefix (c ∷ cs) = ground (arith, rstrip-IsPrefix cs)

take-IsPrefix : (n : ℕ) (t : Text) → IsPrefix (take n t) t
take-IsPrefix zero t = tt
take-IsPrefix (suc n) [] = tt
take-IsPrefix (suc n) (c ∷ cs) = (refl, take-IsPrefix n cs)

IsPrefix-trans : (s t u : Text) → IsPrefix s t → IsPrefix t u → IsPrefix s u
IsPrefix-trans [] t u p q = tt
IsPrefix-trans (a ∷ s) [] u p q = absurd p
IsPrefix-trans (a ∷ s) (b ∷ t) [] p q = absurd q
IsPrefix-trans (a ∷ s) (b ∷ t) (c ∷ u) (e, p) (f, q) = (e ∙ f, IsPrefix-trans s t u p q)

-- The three forms of a summary: nothing was said, all that was said, or a part and an ellipsis.
abbrev pub IsEmpty : Text → Text → Type 0
IsEmpty joined summary = (joined ≡ []) × (summary ≡ empty_summary)

abbrev pub IsWhole : Text → Text → Type 0
IsWhole joined summary = (length joined ≤ 1000) × (summary ≡ joined)

abbrev pub IsCut : Text → Text → Type 0
IsCut joined summary =
    (1000 < length joined)
    × ((part : Text) × IsPrefix part joined × (summary ≡ part ++ (ellipsis ∷ [])))

abbrev pub IsSummary : Text → Text → Type 0
IsSummary joined summary = IsEmpty joined summary ⊎ (IsWhole joined summary ⊎ IsCut joined summary)

part-IsPrefix : (t : Text) → IsPrefix (rstrip (take 999 t)) t
part-IsPrefix t =
    IsPrefix-trans (rstrip (take 999 t)) (take 999 t) t (rstrip-IsPrefix (take 999 t))
      (take-IsPrefix 999 t)

abbrev cut : Text → Text
cut t = rstrip (take 999 t) ++ (ellipsis ∷ [])

-- A clipped text, which is all of it or cut.
clip-forms :
    (t : Text) → ((length t ≤ 1000) × (clip t ≡ t)) ⊎ ((1000 < length t) × (clip t ≡ cut t))
clip-forms t = pick (leb (length t) 1000) refl
  where
    pick :
        (b : Bool)
        → leb (length t) 1000 ≡ b
        → ((length t ≤ 1000) × ((if b then t else cut t) ≡ t))
          ⊎ ((1000 < length t) × ((if b then t else cut t) ≡ cut t))
    pick true e = inl (leb→le (length t) 1000 e, refl)
    pick false e = inr (leb-false (length t) 1000 e, refl)

length-cut : (t : Text) → (length (cut t) ≤ 1000) × (0 < length (cut t))
length-cut t = omega (
  arith,
  length-append (rstrip (take 999 t)) (ellipsis ∷ []),
  length-rstrip (take 999 t),
  length-take 999 t,
)

summarize_lem :
    (t : Text)
    → (length (summarize t) ≤ 1000) × (0 < length (summarize t)) × IsSummary t (summarize t)
summarize_lem [] = (omega arith, omega arith, inl (refl, refl))
summarize_lem (c ∷ cs) = elim (clip-forms (c ∷ cs)) [
  | inl (h, e) ↦ (rw e h, rw e (omega arith), inr (inl (h, e)))
  | inr (h, e) ↦
      let (small, pos) = length-cut (c ∷ cs) in
      (rw e small, rw e pos, inr (inr (h, (rstrip (take 999 (c ∷ cs)), part-IsPrefix (c ∷ cs), e))))
]

-- The summary never exceeds the 1000 characters of the callback's text and is never empty; the
-- payload carries it whole; and it is the default text where nothing was said, else all the
-- paragraphs where they fit, else a prefix of them and an ellipsis.
pub build_summary_fits :
    (texts : List (Option Text)) (web_url : String)
    → (length (build_summary texts) ≤ 1000)
      × (0 < length (build_summary texts))
      × (build_success_payload (build_summary texts) web_url
          ≡ Payload.success_payload (build_summary texts) web_url)
      × IsSummary (join_paragraphs (kept_texts texts)) (build_summary texts)
unfolding build_summary build_success_payload
build_summary_fits texts web_url =
    let (small, pos, form) = summarize_lem (join_paragraphs (kept_texts texts)) in
    (small, pos, ap (λ t. Payload.success_payload t web_url) (take_all 1000 _ small), form)
