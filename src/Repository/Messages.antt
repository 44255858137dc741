-- ===== src/Repository/Messages.antt =====
-- `save_message` and `list_messages` of repository.py, on the table `ai_experience_message`.
use folioo_ai.Base.{
  ℕ, suc, ◌+◌, String, Bool, true, ◌&&◌, Option, none, some, List, [], ◌∷◌, ◌++◌, ltb, ◌==◌,
  if◌then◌else◌, length, take, select,
}

pub record MessageRow : Type 0 where
  pub id : ℕ
  pub user_id : ℕ
  pub session_id : ℕ
  pub request_id : ℕ
  pub user_message : Option String
  pub ai_responses : List String
  pub attachments : List (String × String)
  pub status : String
  pub can_revert : Option Bool
  pub channel : String
  pub created_at : ℕ

-- The table in the order of `id`, and the next value of its `bigserial`.
pub record MessageTable : Type 0 where
  pub rows : List MessageRow
  pub next_id : ℕ

-- The columns that the caller gives.
pub record NewMessage : Type 0 where
  pub user_message : Option String
  pub ai_responses : List String
  pub attachments : Option (List (String × String))
  pub status : String
  pub can_revert : Option Bool
  pub channel : String

-- `attachments or []`
abbrev attachments_or_empty : Option (List (String × String)) → List (String × String)
attachments_or_empty none = []
attachments_or_empty (some l) = l

unfoldable pub save_message : ℕ → ℕ → ℕ → ℕ → NewMessage → MessageTable → MessageTable
save_message now user session request m t = record {
  rows =
      t.rows
      ++ (record {
        id = t.next_id;
        user_id = user;
        session_id = session;
        request_id = request;
        user_message = m.user_message;
        ai_responses = m.ai_responses;
        attachments = attachments_or_empty m.attachments;
        status = m.status;
        can_revert = m.can_revert;
        channel = m.channel;
        created_at = now;
      }
          ∷ []);
  next_id = t.next_id + 1;
}

-- `$3::bigint IS NULL OR id > $3`
abbrev pub after_cursor : Option ℕ → ℕ → Bool
after_cursor none id = true
after_cursor (some c) id = ltb c id

abbrev pub of_page : ℕ → ℕ → Option ℕ → MessageRow → Bool
of_page user session cursor r =
    r.user_id == user && r.session_id == session && after_cursor cursor r.id

-- `rows[-1]`; `None` here is the `IndexError` of an empty page, met only with a limit of 0.
abbrev pub last_id : List MessageRow → Option ℕ
last_id [] = none
last_id (r ∷ []) = some r.id
last_id (_ ∷ r ∷ rs) = last_id (r ∷ rs)

unfoldable pub list_messages : ℕ → ℕ → Option ℕ → ℕ → MessageTable → List MessageRow × Option ℕ
list_messages user session cursor limit t =
    let records = take (suc limit) (select (of_page user session cursor) t.rows) in
    let rows = take limit records in
    (rows, if ltb limit (length records) then last_id rows else none)
