-- ===== src/Service/Prepare/Request.antt =====
-- `compute_request_hash` and `PreparedRequest` of service.py.
use folioo_ai.Base.{
  text_or_empty, ℕ, Text, strip, String, Bool, Option, List, [], ◌∷◌, leb, if◌then◌else◌,
}
use folioo_ai.Repository.Rows.{RequestRow}

-- `sorted(file_hashes)`
abbrev pub insert : ℕ → List ℕ → List ℕ
insert a [] = a ∷ []
insert a (b ∷ bs) = if leb a b then a ∷ b ∷ bs else b ∷ insert a bs

abbrev pub sorted : List ℕ → List ℕ
sorted [] = []
sorted (a ∷ rest) = insert a (sorted rest)

-- The object that is hashed.
pub record HashInput : Type 0 where
  pub message : Text
  pub context_experience_id : Option ℕ
  pub view : Option Text
  pub files : List ℕ

unfoldable pub hash_input : Option Text → Option ℕ → Option Text → List ℕ → HashInput
hash_input message context view files = record {
  message = strip (text_or_empty message);
  context_experience_id = context;
  view = view;
  files = sorted files;
}

-- `StoredFile`, as far as the service reads it.
pub record StoredFile : Type 0 where
  pub sha256 : ℕ
  pub filename : String
  pub content_type : String

pub data Channel : Type 0 where
  web kakao : Channel

pub record PreparedRequest : Type 0 where
  pub user_id : ℕ
  pub session_id : ℕ
  pub request_id : ℕ
  pub request_hash : ℕ
  pub user_message : Option Text
  pub context_experience_id : Option ℕ
  pub view : Option Text
  pub stored_files : List StoredFile
  pub replay_of : Option RequestRow
  pub is_retry : Bool
  pub owner_token : Option ℕ
  pub channel : Channel
  pub active_gap : Option String
