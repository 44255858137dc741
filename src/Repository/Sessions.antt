-- ===== src/Repository/Sessions.antt =====
-- `get_or_create_session`, `get_session` and `save_active_gap` of repository.py, and
-- `get_latest_request`.
use folioo_ai.Base.{
  ℕ, String, Bool, ◌&&◌, Option, none, some, List, [], ◌∷◌, ◌==◌, ltb, if◌then◌else◌, select_first,
  select, update_where,
}
use folioo_ai.Repository.Rows.{SessionRow, RequestRow, Db}

abbrev pub is_session : ℕ → ℕ → SessionRow → Bool
is_session user session s = s.user_id == user && s.session_id == session

-- The primary key of the table of sessions.
abbrev pub of_activity : ℕ → ℕ → SessionRow → Bool
of_activity user block s = s.user_id == user && s.block_id == block

-- `INSERT … ON CONFLICT (user_id, block_id) DO UPDATE`, which touches only `updated_at`. The new
-- session id is what `uuid.uuid4()` returned.
unfoldable pub get_or_create_session : ℕ → ℕ → ℕ → Db → SessionRow × Db
get_or_create_session fresh user block db =
    elim (select_first (of_activity user block) db.sessions) [
      | some s ↦ (s, db)
      | none ↦
          let s : SessionRow = record {
            user_id = user;
            session_id = fresh;
            block_id = block;
            active_gap = none;
          } in
          (s, record db { sessions = s ∷ db.sessions })
    ]

unfoldable pub get_session : ℕ → ℕ → Db → Option SessionRow
get_session user session db = select_first (is_session user session) db.sessions

unfoldable pub save_active_gap : ℕ → ℕ → Option String → Db → Db
save_active_gap user session gap db = record db {
  sessions =
      update_where (is_session user session) (λ s. record s { active_gap = gap }) db.sessions;
}

-- `ORDER BY created_at DESC LIMIT 1`. Of two rows of one time the server may return either.
latest : List RequestRow → Option RequestRow
latest [] = none
latest (r ∷ rs) = elim (latest rs) [
  | none ↦ some r
  | some l ↦ if ltb r.created_at l.created_at then some l else some r
]

unfoldable pub get_latest_request : ℕ → ℕ → Db → Option RequestRow
unfolding latest
get_latest_request user session db =
    latest (select (λ r. r.user_id == user && r.session_id == session) db.requests)
