-- ===== src/Commit/Suggestion.antt =====
-- `build_suggestion` and `_resolve_anchor` of nodes/suggestion_response.py, without the path that
-- is shown beside the anchor.
use folioo_ai.Base.{
  ℕ, zero, suc, Text, strip, Bool, true, Option, none, some, List, [], ◌∷◌, ◌==◌, if◌then◌else◌,
}
use folioo_ai.Commit.Remap.{Dict, get}
use folioo_ai.Commit.Node.{Applied, CommitResult, required_string}

-- `GapCandidate`. An anchor is an alias or an item id.
pub record Candidate : Type 0 where
  pub well_typed : Bool
  pub gap_type : ℕ
  pub anchor_ref : ℕ

pub record ActiveGap : Type 0 where
  pub gap_id : ℕ
  pub gap_type : ℕ
  pub anchor_block_id : ℕ
  pub message : Text
  pub created_request_id : ℕ

-- `suggestion`. `is_gap` is whether its gap passes `SuggestionGap.model_validate`.
pub record Suggestion : Type 0 where
  pub is_gap : Bool
  pub gap : Option ActiveGap
  pub message : Text

-- The keys of the state after the gap analysis.
pub record GapState : Type 0 where
  pub request_id : Option ℕ
  pub aliases : Dict
  pub gap_candidate : Option Candidate
  pub gap_message : Option Text
  pub commit_result : Option CommitResult
  pub active_gap : Option ActiveGap
  pub suggestion : Option Suggestion

-- The first applied item of that id whose block id is not empty.
abbrev pub applied_block : ℕ → List Applied → Option ℕ
applied_block anchor [] = none
applied_block anchor (x ∷ xs) =
    if x.item_id == anchor
    then elim x.block_id [ zero ↦ applied_block anchor xs | suc n ↦ some (suc n) ]
    else applied_block anchor xs

abbrev pub committed_block : ℕ → Option CommitResult → Option ℕ
committed_block anchor none = none
committed_block anchor (some r) = applied_block anchor r.applied

-- `existing_id`, unless it is missing or empty.
abbrev pub existing_or : Option ℕ → Option ℕ → Option ℕ
existing_or none other = other
existing_or (some zero) other = other
existing_or (some (suc n)) other = some (suc n)

abbrev pub resolve_anchor : GapState → ℕ → Option ℕ
resolve_anchor s anchor =
    existing_or (get anchor s.aliases) (committed_block anchor s.commit_result)

-- `message.strip()`; `none` if nothing is left.
abbrev pub stripped_message : Option Text → Option Text
stripped_message none = none
stripped_message (some t) = elim (strip t) [ [] ↦ none | c ∷ cs ↦ some (c ∷ cs) ]

abbrev pub new_gap : ℕ → Candidate → Option ℕ → Option ℕ → Option Text → Option ActiveGap
new_gap uuid c none request message = none
new_gap uuid c (some anchor) none message = none
new_gap uuid c (some anchor) (some request) none = none
new_gap uuid c (some anchor) (some request) (some message) = some (record {
  gap_id = uuid;
  gap_type = c.gap_type;
  anchor_block_id = anchor;
  message = message;
  created_request_id = request;
})

abbrev pub with_gap : GapState → Option ActiveGap → Option GapState
with_gap s none = none
with_gap s (some g) = some (record s {
  active_gap = some g;
  suggestion = some (record { is_gap = true; gap = some g; message = g.message });
})

-- `NO_GAP_MESSAGE`: "더 정리하고 싶으신 내용이 있나요?"
abbrev pub no_gap_message : Text
no_gap_message =
    45908 ∷ 32 ∷ 51221 ∷ 47532 ∷ 54616 ∷ 44256 ∷ 32 ∷ 49910 ∷ 51004 ∷ 49888 ∷ 32 ∷ 45236 ∷ 50857
    ∷ 51060 ∷ 32 ∷ 51080 ∷ 45208 ∷ 50836 ∷ 63 ∷ []

abbrev pub suggest : ℕ → GapState → Option Candidate → Option GapState
suggest uuid s none = some (record s {
  active_gap = none;
  suggestion = some (record { is_gap = true; gap = none; message = no_gap_message });
})
suggest uuid s (some c) =
    if c.well_typed
    then with_gap s (
        new_gap uuid c (resolve_anchor s c.anchor_ref) (required_string s.request_id)
          (stripped_message s.gap_message))
    else none

-- `none` is the error it raises.
unfoldable pub build_suggestion : ℕ → GapState → Option GapState
build_suggestion uuid s = suggest uuid s s.gap_candidate
