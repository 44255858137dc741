-- ===== src/MapContext/Activity.antt =====
-- `ExperienceMapSnapshot` of map_context.py: the aliases of activities and of their blocks. An
-- alias is a number: `exp_k` is 2k, `b_k` is 2k + 1.
use folioo_ai.Base.{
  text_or_empty, ℕ, suc, ◌+◌, ◌*◌, Text, strip, Bool, Option, none, some, List, [], ◌∷◌, ◌++◌, ◌==◌,
  if◌then◌else◌, text_of,
}
use folioo_ai.Commit.Remap.{Dict}
use folioo_ai.MapContext.Snapshot.{MapBlockRow, Forest, end, block}

-- An activity: a block of level 2 with its children.
pub record Activity : Type 0 where
  pub row : MapBlockRow
  pub children : Forest

abbrev pub activity_alias : ℕ → ℕ
activity_alias k = 2 * k

abbrev pub block_alias : ℕ → ℕ
block_alias k = 2 * k + 1

-- The activities among the children of one root, before those of the other roots.
abbrev pub activities_among : Forest → List Activity → List Activity
activities_among end later = later
activities_among (block r children rest) later =
    if r.level == 2
    then record { row = r; children = children } ∷ activities_among rest later
    else activities_among rest later

-- `self._activities`
abbrev pub activities : Forest → List Activity
activities end = []
activities (block r children rest) = activities_among children (activities rest)

-- `self._activity_by_alias.get(alias)`, with the aliases counted from the given number.
abbrev pub activity_by_alias : ℕ → ℕ → List Activity → Option Activity
activity_by_alias k alias [] = none
activity_by_alias k alias (a ∷ rest) =
    if activity_alias k == alias then some a else activity_by_alias (suc k) alias rest

-- An entry of `alias_metadata`.
pub record AliasBlockMetadata : Type 0 where
  pub block_id : ℕ
  pub parent_alias : Option ℕ
  pub level : ℕ
  pub kind : ℕ
  pub placeholder : Option Text
  pub is_text_editable : Bool

abbrev pub metadata_of : MapBlockRow → Option ℕ → AliasBlockMetadata
metadata_of r parent = record {
  block_id = r.block_id;
  parent_alias = parent;
  level = r.level;
  kind = r.kind;
  placeholder = r.placeholder;
  is_text_editable = r.is_text_editable;
}

abbrev pub guide : Text → ℕ → Text
guide [] level = text_of "(빈 블록)"
guide (c ∷ cs) level =
    if level == 3 then c ∷ cs else text_of "(빈 블록 — 가이드: " ++ (c ∷ cs) ++ text_of ")"

abbrev pub content_or_guide : Text → Text → ℕ → Text
content_or_guide [] placeholder level = guide placeholder level
content_or_guide (c ∷ cs) placeholder level = c ∷ cs

-- `_label`
unfoldable pub label : MapBlockRow → Text
label r =
    content_or_guide (strip (text_or_empty r.content)) (strip (text_or_empty r.placeholder)) r.level

-- A line of the tree: its depth, alias and label.
abbrev pub Line : Type 0
Line = ℕ × ℕ × Text

-- `alias_to_block_id`, `alias_metadata`, the lines, and `next_block_alias`.
pub record Rendered : Type 0 where
  pub aliases : Dict
  pub metadata : List (ℕ × AliasBlockMetadata)
  pub lines : List Line
  pub next : ℕ

-- `render`, over the children of the block of alias `parent`.
unfoldable pub render : ℕ → ℕ → ℕ → Forest → Rendered
render depth parent k end = record { aliases = []; metadata = []; lines = []; next = k }
render depth parent k (block r children rest) =
    let alias = block_alias k in
    let inner = render (suc depth) alias (suc k) children in
    let later = render depth parent inner.next rest in
    record {
      aliases = (alias, r.block_id) ∷ (inner.aliases ++ later.aliases);
      metadata = (alias, metadata_of r (some parent)) ∷ (inner.metadata ++ later.metadata);
      lines = (depth, alias, label r) ∷ (inner.lines ++ later.lines);
      next = later.next;
    }

pub record ActivityContext : Type 0 where
  pub activity_alias : ℕ
  pub activity_id : ℕ
  pub tree : List Line
  pub alias_to_block_id : Dict
  pub alias_metadata : List (ℕ × AliasBlockMetadata)

abbrev pub context_of : ℕ → Option Activity → Option ActivityContext
context_of alias none = none
context_of alias (some a) =
    let inner = render 1 alias 1 a.children in
    some (record {
      activity_alias = alias;
      activity_id = a.row.block_id;
      tree = (0, alias, label a.row) ∷ inner.lines;
      alias_to_block_id = (alias, a.row.block_id) ∷ inner.aliases;
      alias_metadata = (alias, metadata_of a.row none) ∷ inner.metadata;
    })

unfoldable pub get_activity_context : ℕ → Forest → Option ActivityContext
get_activity_context alias roots = context_of alias (activity_by_alias 1 alias (activities roots))
