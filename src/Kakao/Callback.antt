-- ===== src/Kakao/Callback.antt =====
-- kakao/callback.py: the text of the callback and what its answer means. A text is the list of its
-- code points, as `len` and slices count them.
use folioo_ai.Base.{
  same_text, Text, strip, rstrip, ℕ, ◌-◌, String, Bool, ◌&&◌, ◌||◌, Option, none, some, List, [],
  ◌∷◌, ◌++◌, leb, ltb, if◌then◌else◌, length, take, any,
}
use folioo_ai.Kakao.Rows.{Payload, Delivery, success, fail, unknown}

abbrev pub max_summary_chars : ℕ
max_summary_chars = 1000

-- "경험 정리를 마쳤어요."
abbrev pub empty_summary : Text
empty_summary =
    44221 ∷ 54744 ∷ 32 ∷ 51221 ∷ 47532 ∷ 47484 ∷ 32 ∷ 47560 ∷ 52452 ∷ 50612 ∷ 50836 ∷ 46 ∷ []

abbrev pub ellipsis : ℕ
ellipsis = 8230

-- The parts that the generator expression keeps.
abbrev pub kept_texts : List (Option Text) → List Text
kept_texts [] = []
kept_texts (none ∷ ts) = kept_texts ts
kept_texts (some t ∷ ts) = elim (strip t) [ [] ↦ kept_texts ts | c ∷ cs ↦ (c ∷ cs) ∷ kept_texts ts ]

-- `"\n\n".join(…)`
abbrev pub join_paragraphs : List Text → Text
join_paragraphs [] = []
join_paragraphs (t ∷ []) = t
join_paragraphs (t ∷ u ∷ us) = t ++ (10 ∷ 10 ∷ join_paragraphs (u ∷ us))

-- A text cut to the limit.
abbrev pub clip : Text → Text
clip joined =
    if leb (length joined) max_summary_chars
    then joined
    else rstrip (take (max_summary_chars - 1) joined) ++ (ellipsis ∷ [])

abbrev pub summarize : Text → Text
summarize [] = empty_summary
summarize (c ∷ cs) = clip (c ∷ cs)

unfoldable pub build_summary : List (Option Text) → Text
build_summary texts = summarize (join_paragraphs (kept_texts texts))

unfoldable pub build_success_payload : Text → String → Payload
build_success_payload summary web_url =
    Payload.success_payload (take max_summary_chars summary) web_url

abbrev pub build_failure_payload : String → Payload
build_failure_payload web_url = Payload.failure_payload web_url

abbrev pub build_unknown_payload : String → Payload
build_unknown_payload web_url = Payload.unknown_payload web_url

-- The body of a response: not JSON, JSON that is no object, or the text of its `status`.
pub data Body : Type 0 where
  unreadable no_object : Body
  with_status : Text → Body

pub record Response : Type 0 where
  pub is_redirect : Bool
  pub status_code : ℕ
  pub body : Body

-- What `http.post` did.
pub data Post : Type 0 where
  connect_error other_error : Post
  response : Response → Post

-- "SUCCESS", "FAIL" and "ERROR"
abbrev pub success_text : Text
success_text = 83 ∷ 85 ∷ 67 ∷ 67 ∷ 69 ∷ 83 ∷ 83 ∷ []

abbrev pub failure_texts : List Text
failure_texts = (70 ∷ 65 ∷ 73 ∷ 76 ∷ []) ∷ (69 ∷ 82 ∷ 82 ∷ 79 ∷ 82 ∷ []) ∷ []

-- `upper` is `str.upper`.
module _ (upper : Text → Text) where
  abbrev pub read_status : Text → Delivery
  read_status status =
      if same_text (upper status) success_text
      then success
      else if any (same_text (upper status)) failure_texts
      then fail
      else unknown

  abbrev pub read_body : Body → Delivery
  read_body unreadable = unknown
  read_body no_object = read_status []
  read_body (with_status s) = read_status s

  abbrev pub judge : Response → Delivery
  judge r =
      if r.is_redirect || (leb 300 r.status_code && ltb r.status_code 400)
      then fail
      else if leb 400 r.status_code && ltb r.status_code 500
      then fail
      else if leb 500 r.status_code
      then unknown
      else read_body r.body

  unfoldable pub send_callback : Post → Delivery
  send_callback connect_error = fail
  send_callback other_error = unknown
  send_callback (response r) = judge r
