-- ===== src/Commit/Laws/Script.antt =====
-- The order of the coordinator's events.
use mathlib.Core.Path.{subst}
use folioo_ai.Base.{
  ℕ, zero, suc, Text, true, Option, none, some, List, [], ◌∷◌, ◌≡◌, refl, sym, ap, ◌⊎◌, ◌∙◌, arith,
  inl, inr, Option-cases, Bool-cases, is_some, false,
}
use folioo_ai.Commit.Node.{
  State, CommitResult, Raised, value_error, commit_changes, required_string,
}
use folioo_ai.Commit.Suggestion.{
  no_gap_message, ActiveGap, Suggestion, GapState, Candidate, suggest, new_gap, resolve_anchor,
  stripped_message, build_suggestion,
}
use folioo_ai.Commit.Coordinator.{
  CompletedMessage, World, Committed, committed_from, commit_raised, commit_loop, Run, stop_with,
  emit, Event, commit_running, commit_completed, commit_result_event, message_complete,
  suggestion_ready, result_of, suggestion_of, coordinate, after_loop, report, result_message,
  suggestion_events, finish_gap, gap_state, save_active_gap_safely, ids_of,
}
use folioo_ai.Commit.Laws.Loop.{commit_changes-Ends, Outcome-cases}

-- The runs of the coordinator: their events, and the error that ends them.
pub data Script (w : World) (s : State) : List Event → Option Raised → Type 0 where
  commit_fails : (e : Raised) → Script w s (commit_running ∷ []) (some e)
  ids_missing :
      (r : CommitResult)
      → ids_of s ≡ none
      → Script w s
          (commit_running ∷ commit_completed ∷ commit_result_event r ∷ [])
          (some value_error)
  without_suggestion :
      (request session : ℕ) (t : State) (r : CommitResult)
      → ids_of s ≡ some (request, session)
      → Script w s
          (commit_running
            ∷ commit_completed
            ∷ commit_result_event r
            ∷ message_complete (result_of request session (w.build_result_response t r) r)
            ∷ [])
          none
  with_suggestion :
      (request session : ℕ) (t : State) (r : CommitResult) (gap : Option ActiveGap) (hint : Text)
      → ids_of s ≡ some (request, session)
      → Script w s
          (commit_running
            ∷ commit_completed
            ∷ commit_result_event r
            ∷ message_complete (result_of request session (w.build_result_response t r) r)
            ∷ suggestion_ready gap
            ∷ message_complete (suggestion_of request session hint)
            ∷ [])
          none
  gap_malformed :
      (request session : ℕ) (from t : State) (r : CommitResult) (g : GapState) (x : Suggestion)
      → ids_of s ≡ some (request, session)
      → w.run_gap from ≡ some g
      → g.suggestion ≡ some x
      → x.is_gap ≡ false
      → Script w s
          (commit_running
            ∷ commit_completed
            ∷ commit_result_event r
            ∷ message_complete (result_of request session (w.build_result_response t r) r)
            ∷ [])
          (some value_error)

save_keeps :
    (w : World) (s : State) (gap : Option ActiveGap) (run : Run)
    → ((save_active_gap_safely w s gap run).events ≡ run.events)
      × ((save_active_gap_safely w s gap run).ended ≡ run.ended)
save_keeps w s gap run = elim (Option-cases (required_string s.user_id)) [
  | inl n ↦ (ground (arith, n), ground (arith, n))
  | inr (a, n) ↦ elim (Option-cases (required_string s.session_id)) [
    | inl m ↦ (ground (arith, n, m), ground (arith, n, m))
    | inr (b, m) ↦ (ground (arith, n, m), ground (arith, n, m))
  ]
]

-- The analysis itself gave a suggestion, whose gap is malformed.
abbrev IsMalformed : Option GapState → Type 0
IsMalformed o =
    (g : GapState) × (x : Suggestion) × (o ≡ some g) × (g.suggestion ≡ some x) × (x.is_gap ≡ false)

-- What follows the result's message is nothing, or the suggestion and its message, or an error for
-- a malformed gap.
abbrev Tail : ℕ → ℕ → Option GapState → Run → Type 0
Tail request session o run =
    ((run.events ≡ []) × (run.ended ≡ none))
    ⊎ ((IsMalformed o × (run.events ≡ []) × (run.ended ≡ some value_error))
        ⊎ ((gap : Option ActiveGap) × (hint : Text) × (run.events
              ≡ suggestion_ready gap ∷ message_complete (suggestion_of request session hint) ∷ [])
            × (run.ended ≡ none)))

-- What `build_suggestion` makes is a well-formed suggestion.
abbrev IsBuilt : GapState → Type 0
IsBuilt g = (x : Suggestion) × (g.suggestion ≡ some x) × (x.is_gap ≡ true)

suggest-IsBuilt :
    (uuid : ℕ) (s g : GapState) (c : Option Candidate) → suggest uuid s c ≡ some g → IsBuilt g
suggest-IsBuilt uuid s g none e =
    (record { is_gap = true; gap = none; message = no_gap_message }, ground arith, refl)
suggest-IsBuilt uuid s g (some c) e =
    let gap =
      new_gap uuid c (resolve_anchor s c.anchor_ref) (required_string s.request_id)
        (stripped_message s.gap_message) in
    elim (Option-cases gap) [
      | inl n ↦ absurd (ground (arith, n))
      | inr (a, n) ↦
          (record { is_gap = true; gap = some a; message = a.message }, ground (arith, n), refl)
    ]

-- The suggestion that the coordinator has is well-formed, or the analysis gave it.
gap_state-suggestion :
    (w : World) (t : State) (o : Option GapState) (g : GapState)
    → gap_state w t o ≡ some g
    → IsBuilt g
      ⊎ ((h : GapState) × (x : Suggestion) × (o ≡ some h)
          × (h.suggestion ≡ some x)
          × (g.suggestion ≡ some x))
unfolding build_suggestion
gap_state-suggestion w t none g e = absurd (ground arith)
gap_state-suggestion w t (some h) g e = elim (Option-cases h.suggestion) [
  | inl n ↦ inl (
      suggest-IsBuilt w.uuid (record h { commit_result = t.commit_result }) g h.gap_candidate
        (ground (arith, n)))
  | inr (x, n) ↦ inr (h, x, refl, n, ground (arith, n))
]

suggestion_events-sent :
    (x : Suggestion) (gap : Option ActiveGap) (request session : ℕ)
    → let run = suggestion_events x gap (some (request, session)) in
      ((x.is_gap ≡ false) × (run.events ≡ []) × (run.ended ≡ some value_error))
      ⊎ ((run.events
            ≡ suggestion_ready gap
              ∷ message_complete (suggestion_of request session x.message)
              ∷ [])
          × (run.ended ≡ none))
suggestion_events-sent x none request session = inr (refl, refl)
suggestion_events-sent x (some gap) request session = elim (Bool-cases x.is_gap) [
  | inl b ↦ inr (ground (arith, b), ground (arith, b))
  | inr b ↦ inl (b, ground (arith, b), ground (arith, b))
]

finish_gap-Tail :
    (w : World) (s t : State) (request session : ℕ) (o : Option GapState) (p : Option GapState)
    → ids_of s ≡ some (request, session)
    → ((g : GapState)
        → p ≡ some g
        → IsBuilt g
          ⊎ ((h : GapState) × (x : Suggestion) × (o ≡ some h)
              × (h.suggestion ≡ some x)
              × (g.suggestion ≡ some x)))
    → Tail request session o (finish_gap w s p)
finish_gap-Tail w s t request session o none i h =
    let (es, ended) = save_keeps w s none (stop_with none) in inl (es, ended)
finish_gap-Tail w s t request session o (some g) i h = elim (h g refl) [
  | inl (x, n, b) ↦
      let (es, ended) = save_keeps w s g.active_gap (suggestion_events x x.gap (ids_of s)) in
      elim (suggestion_events-sent x x.gap request session) [
        | inl (c, _, _) ↦ absurd (ground (arith, b, c))
        | inr (k, d) ↦
            inr
              (inr (x.gap, x.message, ground (arith, n, i, es, k), ground (arith, n, i, ended, d)))
      ]
  | inr (h, x, m, q, n) ↦
      let (es, ended) = save_keeps w s g.active_gap (suggestion_events x x.gap (ids_of s)) in
      elim (suggestion_events-sent x x.gap request session) [
        | inl (c, k, d) ↦
            inr (inl ((h, x, m, q, c), ground (arith, n, i, es, k), ground (arith, n, i, ended, d)))
        | inr (k, d) ↦
            inr
              (inr (x.gap, x.message, ground (arith, n, i, es, k), ground (arith, n, i, ended, d)))
      ]
]

transport :
    (w : World) (s : State) (a b : List Event) (c d : Option Raised)
    → a ≡ b
    → c ≡ d
    → Script w s b d
    → Script w s a c
transport w s a b c d p q x =
    subst (λ z. Script w s z c) (sym p) (subst (λ z. Script w s b z) (sym q) x)

abbrev reported : CompletedMessage → CommitResult → List Event → List Event
reported m r es =
    commit_running ∷ commit_completed ∷ commit_result_event r ∷ message_complete m ∷ es

report-Script :
    (w : World) (s from t : State) (r : CommitResult)
    → Script w s
        (commit_running ∷ commit_completed ∷ (report w s from t (some r)).events)
        (report w s from t (some r)).ended
report-Script w s from t r = elim (Option-cases (ids_of s)) [
  | inl n ↦
      let m = ap (λ i. emit (commit_result_event r) (result_message w s from t r i)) n in
      transport w s _ _ _ _ (ap (λ z. commit_running ∷ commit_completed ∷ z.events) m)
        (ap (λ z. z.ended) m) (ids_missing r n)
  | inr ((request, session), n) ↦
      let text = w.build_result_response t r in
      let m = ap (λ i. emit (commit_result_event r) (result_message w s from t r i)) n in
      elim (finish_gap-Tail w s t request session (w.run_gap from) (gap_state w t (w.run_gap from))
        n (gap_state-suggestion w t (w.run_gap from))) [
          | inl (es, d) ↦
              transport w s _ _ _ _
                (ap (λ z. commit_running ∷ commit_completed ∷ z.events) m
                  ∙ ap (reported (result_of request session text r) r) es)
                (ap (λ z. z.ended) m ∙ d) (without_suggestion request session t r n)
          | inr (inl ((g, x, o, q, c), es, d)) ↦
              transport w s _ _ _ _
                (ap (λ z. commit_running ∷ commit_completed ∷ z.events) m
                  ∙ ap (reported (result_of request session text r) r) es)
                (ap (λ z. z.ended) m ∙ d) (gap_malformed request session from t r g x n o q c)
          | inr (inr (gap, hint, es, d)) ↦
              transport w s _ _ _ _
                (ap (λ z. commit_running ∷ commit_completed ∷ z.events) m
                  ∙ ap (reported (result_of request session text r) r) es)
                (ap (λ z. z.ended) m ∙ d) (with_suggestion request session t r gap hint n)
        ]
]

-- What the loop hands on has the result that the commit node wrote.
commit_loop-result :
    (fuel : ℕ) (w : World) (k : ℕ) (s from t : State)
    → commit_loop fuel w k s ≡ some (committed_from from t)
    → is_some t.commit_result ≡ true
unfolding commit_loop
commit_loop-result zero w k s from t e = absurd (ground arith)
commit_loop-result (suc fuel) w k s from t e =
    elim (Outcome-cases (commit_changes (w.client k) s)) [
      | inl (x, o) ↦ absurd (ground (arith, o))
      | inr (u, o) ↦ elim (Option-cases u.commit_recovery_node) [
        | inl n ↦ elim (commit_changes-Ends (w.client k) s u o) [
          | inl (r, q) ↦ ground (arith, o, n, q)
          | inr (_, _, p, _) ↦ absurd (ground (arith, n))
        ]
        | inr (r, n) ↦ elim (Option-cases w.recover_commit) [
          | inl m ↦ absurd (ground (arith, o, n, m))
          | inr (f, m) ↦ elim (Option-cases (f u r)) [
            | inl i ↦ absurd (ground (arith, o, n, m, i))
            | inr (v, i) ↦ commit_loop-result fuel w (suc k) v from t (ground (arith, o, n, m, i))
          ]
        ]
      ]
    ]

loop-Script :
    (w : World) (s : State) (c : Committed)
    → ((from t : State) → c ≡ committed_from from t → is_some t.commit_result ≡ true)
    → Script w s (commit_running ∷ (after_loop w s c).events) (after_loop w s c).ended
loop-Script w s (commit_raised e) h = commit_fails e
loop-Script w s (committed_from from t) h = elim (Option-cases t.commit_result) [
  | inl n ↦ absurd (ground (arith, n, h from t refl))
  | inr (r, n) ↦
      let m = ap (report w s from t) n in
      transport w s _ _ _ _ (ap (λ z. commit_running ∷ commit_completed ∷ z.events) m)
        (ap (λ z. z.ended) m) (report-Script w s from t r)
]

-- Whatever the main server, the recovery and the gap analysis do, a run of the coordinator that
-- ends sends one of these sequences of events: the commit's start alone, and an error; its start,
-- its end and the result, and a `ValueError` for missing ids; these with the result's message; or
-- these and then the suggestion with its message. The last two raise nothing, but that the first of
-- them ends in a `ValueError` where the analysis itself gave a suggestion with a malformed gap. So an
-- error of the analysis does not make a commit fail, and no result is sent of a commit that failed.
pub coordinate-Script :
    (fuel : ℕ) (w : World) (s : State) (run : Run)
    → coordinate fuel w s ≡ some run
    → Script w s run.events run.ended
unfolding coordinate
coordinate-Script fuel w s run e = elim (Option-cases (commit_loop fuel w 0 s)) [
  | inl n ↦ absurd (ground (arith, n))
  | inr (c, n) ↦
      let q : run ≡ emit commit_running (after_loop w s c) = ground (arith, n) in
      transport w s _ _ _ _ (ap (λ z. z.events) q) (ap (λ z. z.ended) q)
        (loop-Script w s c (λ from t p. commit_loop-result fuel w 0 s from t (n ∙ ap some p)))
]
