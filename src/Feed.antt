-- ===== src/Feed.antt =====
-- server/dukan/infrastructure/sync_service.py: `pull`, over the change feed in the order of seq.
pub mod Shown
pub mod Order
pub mod Paging
use dukan_pro.Prelude.{
  take, last, get_elem?, ℕ, zero, suc, String, Bool, true, false, not, ◌&&◌, Option, none, some,
  is_some, List, [], ◌∷◌, ◌++◌, if◌then◌else◌,
}
use dukan_pro.Prelude.Int.{ℤ, pos, pos_part, ltb_ℤ, eqb_ℤ, max_ℤ}
use dukan_pro.Prelude.Text.{opt_eq}
use dukan_pro.Errors.{Result, ok, err, ◌>>=◌, ◌>>◌, raise_if, permission_denied, Code}
use dukan_pro.Domain.Identity.{User}
use dukan_pro.Sync.Values.{Fields}
use dukan_pro.Sync.Pull.{PullScope, for_actor, is_empty, clamp_pull_limit, view}

-- A row of change_log; `fields` is its column data, as below.
pub record Change : Type 0 where
  pub seq : ℤ
  pub table_name : String
  pub row_id : String
  pub op : String
  pub fields : Fields
  pub branch_id : Option String
  pub occurred_at : ℤ

pub record ChangeItem : Type 0 where
  pub seq : ℤ
  pub table : String
  pub row_id : String
  pub op : String
  pub fields : Fields

pub record PullResult : Type 0 where
  pub changes : List ChangeItem
  pub watermark : ℤ
  pub max_seq : ℤ
  pub watermark_token : Option String
  pub scope : String
  pub reset : Bool

-- `where(ChangeLogModel.seq > since)`, in the order of seq
unfoldable pub after : ℤ → List Change → List Change
after since [] = []
after since (r ∷ feed) = if ltb_ℤ since r.seq then r ∷ after since feed else after since feed

-- `self._s.get(ChangeLogModel, since)`
unfoldable pub change_at : ℤ → List Change → Option Change
change_at since [] = none
change_at since (r ∷ feed) = if eqb_ℤ r.seq since then some r else change_at since feed

-- `func.max(ChangeLogModel.seq)`, or 0
unfoldable pub newest : List Change → ℤ
newest [] = pos 0
newest (r ∷ feed) = max_ℤ r.seq (newest feed)

abbrev pub with_item : Change → Option Fields → List ChangeItem → List ChangeItem
with_item r none items = items
with_item r (some fields) items =
    record { seq = r.seq; table = r.table_name; row_id = r.row_id; op = r.op; fields = fields }
    ∷ items

-- The loop that fills `changes`.
unfoldable pub changes_of : PullScope → List Change → Result (List ChangeItem)
changes_of scope [] = ok []
changes_of scope (r ∷ rows) = do
  shown ← view scope r.table_name r.branch_id r.fields
  items ← changes_of scope rows
  ok (with_item r shown items)

unfoldable pub page : List Change → ℤ → ℤ → List Change
page feed since limit = take (pos_part (clamp_pull_limit limit)) (after (max_ℤ since (pos 0)) feed)

-- `rows[-1].seq if rows else since`
abbrev pub watermark_of : Option Change → ℤ → ℤ
watermark_of none since = since
watermark_of (some r) since = r.seq

-- `last`, the change at the watermark
abbrev pub at_watermark : Option Change → List Change → ℤ → Option Change
at_watermark none feed since = if ltb_ℤ (pos 0) since then change_at since feed else none
at_watermark (some r) feed since = some r

-- `change_token` names a change, and `scope_fingerprint` a user's roles: both are SHA-256 sums.
module _ (change_token : Change → String) (scope_fingerprint : User → String) where
  abbrev pub token_of : Option Change → Option String
  token_of none = none
  token_of (some r) = some (change_token r)

  -- The device's change is not in the feed.
  unfoldable pub is_gone : List Change → ℤ → Option String → Bool
  is_gone feed since since_token =
      ltb_ℤ (pos 0) since
      && is_some since_token
      && not (opt_eq (token_of (change_at since feed)) since_token)

  unfoldable pub pull_rows : List Change → User → ℤ → ℤ → Result PullResult
  pull_rows feed actor since limit = do
    changes ← changes_of (for_actor actor) (page feed since limit)
    ok (record {
      changes = changes;
      watermark = watermark_of (last (page feed since limit)) since;
      max_seq = newest feed;
      watermark_token = token_of (at_watermark (last (page feed since limit)) feed since);
      scope = scope_fingerprint actor;
      reset = false;
    })

  -- The answer that has the device read the feed again.
  abbrev pub from_start : List Change → User → PullResult
  from_start feed actor = record {
    changes = [];
    watermark = pos 0;
    max_seq = newest feed;
    watermark_token = none;
    scope = scope_fingerprint actor;
    reset = true;
  }

  unfoldable pub pull : List Change → User → ℤ → ℤ → Option String → Result PullResult
  pull feed actor since limit since_token = do
    raise_if (is_empty (for_actor actor)) (permission_denied Code.access_denied)
    if is_gone feed since since_token
        then ok (from_start feed actor)
        else pull_rows feed actor since limit

  -- A device that pulls so many times, each time from where the last pull ended.
  unfoldable pub pulls : ℕ → List Change → User → ℤ → ℤ → Option String → Result (List ChangeItem)
  pulls zero feed actor since limit token = ok []
  pulls (suc n) feed actor since limit token = do
    r ← pull feed actor since limit token
    rest ← pulls n feed actor r.watermark limit r.watermark_token
    ok (r.changes ++ rest)
