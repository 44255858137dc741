-- ===== src/Service/Laws/Replay.antt =====
-- A finished request is answered by the events of its run.
use folioo_ai.Base.{
  ℕ, zero, suc, Text, String, ◌≡◌, ◌≢◌, refl, ap, ◌∙◌, Option, none, some, List, [], ◌∷◌, ◌++◌, map,
  arith, coalesce,
}
use folioo_ai.Repository.Rows.{RequestRow}
use folioo_ai.Repository.Ownership.{complete_row}
use folioo_ai.Commit.Node.{CommitResult, Raised, State}
use folioo_ai.Commit.Coordinator.{
  Event, commit_running, commit_completed, node_status, commit_result_event, message_complete,
  suggestion_ready, World, Run, coordinate, ids_of,
}
use folioo_ai.Commit.Laws.Script.{
  Script, commit_fails, ids_missing, without_suggestion, with_suggestion, gap_malformed,
  coordinate-Script,
}
use folioo_ai.Service.Payloads.{
  Codec, Payloads, ResultPayload, SuggestionPayload, sent, processing_complete, loaded, dumped,
  read_text, replayed, absorb_all, response_or_default, no_payloads, completion_of, replay,
}

-- The events of a run that a later client must see again: not the status of nodes.
abbrev pub lasting : List Event → List Event
lasting [] = []
lasting (commit_running ∷ es) = lasting es
lasting (commit_completed ∷ es) = lasting es
lasting (node_status _ ∷ es) = lasting es
lasting (commit_result_event r ∷ es) = commit_result_event r ∷ lasting es
lasting (message_complete m ∷ es) = message_complete m ∷ lasting es
lasting (suggestion_ready g ∷ es) = suggestion_ready g ∷ lasting es

-- The columns that the payloads are written to are read as they were.
pub record ReadsBack (c : Codec) (p : Payloads) : Type 0 where
  pub result : (r : ResultPayload) → p.result ≡ some r → c.loads_result (c.dumps_result r) ≡ some r
  pub suggestion :
      (s : SuggestionPayload)
      → p.suggestion ≡ some s
      → c.loads_suggestion (c.dumps_suggestion s) ≡ some s
  pub fallback : (t : Text) → p.fallback ≡ some t → c.read (c.write t) ≡ t

-- No earlier outcome is in the row.
pub record IsBlank (row : RequestRow) : Type 0 where
  pub result : row.result ≡ none
  pub suggestion : row.suggestion ≡ none
  pub fallback : row.fallback_message ≡ none

loaded-dumped :
    {A : Type 0} (load : String → Option A) (dump : A → String) (o : Option A) (old : Option String)
    → old ≡ none
    → ((a : A) → o ≡ some a → load (dump a) ≡ some a)
    → loaded load (coalesce (dumped dump o) old) ≡ o
loaded-dumped load dump none old n h = ap (loaded load) n
loaded-dumped load dump (some a) old n h = h a refl

read-dumped :
    (c : Codec) (o : Option Text) (old : Option String)
    → old ≡ none
    → ((t : Text) → o ≡ some t → c.read (c.write t) ≡ t)
    → read_text c (coalesce (dumped c.write o) old) ≡ o
read-dumped c none old n h = ap (read_text c) n
read-dumped c (some t) old n h = ap some (h t refl)

replay-complete_row :
    (c : Codec) (p : Payloads) (now : ℕ) (row : RequestRow)
    → ReadsBack c p
    → IsBlank row
    → replay c (complete_row now (completion_of c p) row)
      ≡ map sent (replayed row p.result p.suggestion p.fallback)
        ++ (processing_complete row.request_id ∷ [])
unfolding replay
replay-complete_row c p now row b n =
    let done = complete_row now (completion_of c p) row in
    let r = loaded-dumped c.loads_result c.dumps_result p.result row.result n.result b.result in
    let s =
      loaded-dumped c.loads_suggestion c.dumps_suggestion p.suggestion row.suggestion n.suggestion
        b.suggestion in
    let t = read-dumped c p.fallback row.fallback_message n.fallback b.fallback in
    ground (arith, r, s, t)

ids-same :
    (s : State) (request session a b : ℕ)
    → ids_of s ≡ some (request, session)
    → s.request_id ≡ some a
    → s.session_id ≡ some b
    → (request ≡ a) × (session ≡ b)
ids-same s request session zero b e p q = absurd (ground (arith, p))
ids-same s request session (suc a) zero e p q = absurd (ground (arith, p, q))
ids-same s request session (suc a) (suc b) e p q = (ground (arith, p, q), ground (arith, p, q))

response-kept : (t : Text) → t ≢ [] → response_or_default (some t) ≡ t
response-kept [] h = absurd (h refl)
response-kept (c ∷ cs) h = refl

abbrev kept : List Event → Payloads
kept es = absorb_all es no_payloads

replayed-lasting :
    (w : World) (s : State) (row : RequestRow) (es : List Event) (e : Option Raised)
    → Script w s es e
    → e ≡ none
    → s.request_id ≡ some row.request_id
    → s.session_id ≡ some row.session_id
    → ((t : State) (r : CommitResult) → w.build_result_response t r ≢ [])
    → replayed row (kept es).result (kept es).suggestion (kept es).fallback ≡ lasting es
replayed-lasting w s row _ _ (commit_fails x) n p q h = absurd (ground arith)
replayed-lasting w s row _ _ (ids_missing r i) n p q h = absurd (ground arith)
replayed-lasting w s row _ _ (gap_malformed request session from t r g _ _ _ _ _) n p q h =
    absurd (ground arith)
replayed-lasting w s row _ _ (without_suggestion request session t r i) n p q h =
    let (a, b) = ids-same s request session row.request_id row.session_id i p q in
    ground (arith, a, b, response-kept (w.build_result_response t r) (h t r))
replayed-lasting w s row _ _ (with_suggestion request session t r gap hint i) n p q h =
    let (a, b) = ids-same s request session row.request_id row.session_id i p q in
    ground (arith, a, b, response-kept (w.build_result_response t r) (h t r))

-- A run of the coordinator that raised nothing is stored and replayed without loss: if its
-- payloads are read from the columns as they were written, its state has the row's ids, the text of
-- a result is never empty and the row has no earlier outcome, then the replay of the completed row
-- sends the run's events in their order, without the status of nodes, and then closes the stream.
pub replay-coordinate :
    (c : Codec) (fuel : ℕ) (w : World) (s : State) (run : Run) (now : ℕ) (row : RequestRow)
    → coordinate fuel w s ≡ some run
    → run.ended ≡ none
    → s.request_id ≡ some row.request_id
    → s.session_id ≡ some row.session_id
    → ((t : State) (r : CommitResult) → w.build_result_response t r ≢ [])
    → ReadsBack c (absorb_all run.events no_payloads)
    → IsBlank row
    → replay c (complete_row now (completion_of c (absorb_all run.events no_payloads)) row)
      ≡ map sent (lasting run.events) ++ (processing_complete row.request_id ∷ [])
replay-coordinate c fuel w s run now row e n p q h b blank =
    replay-complete_row c (kept run.events) now row b blank
    ∙ ap (λ z. map sent z ++ (processing_complete row.request_id ∷ []))
        (replayed-lasting w s row run.events run.ended (coordinate-Script fuel w s run e) n p q h)
