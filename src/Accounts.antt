-- ===== src/Accounts.antt =====
-- server/dukan/infrastructure/db/models.py: the tables of users, branches, assignments, sessions and
-- the audit trail, each a list of rows in the order of insertion.
pub mod Queries
pub mod Updates
pub mod Owners
use dukan_pro.Prelude.{ℕ, String, Bool, Option, List}
use dukan_pro.Prelude.Int.{ℤ}
use dukan_pro.Domain.Identity.{UserStatus}

pub record UserRow : Type 0 where
  pub id : String
  pub username : String
  pub display_name : String
  pub password_hash : String
  pub status : UserStatus
  pub default_branch_id : Option String
  pub version : ℕ
  pub deleted : Bool

pub record BranchRow : Type 0 where
  pub id : String
  pub name : String
  pub timezone : String
  pub currency_default : String
  pub is_active : Bool
  pub version : ℕ
  pub deleted : Bool

pub record AssignmentRow : Type 0 where
  pub id : String
  pub user_id : String
  pub branch_id : String
  pub role_name : String
  pub version : ℕ
  pub deleted : Bool

pub record SessionRow : Type 0 where
  pub id : String
  pub user_id : String
  pub device_id : String
  pub refresh_hash : String
  pub prev_refresh_hash : Option String
  pub expires_at : ℤ
  pub updated_at : ℤ
  pub revoked : Bool
  pub deleted : Bool

pub record AuditRow : Type 0 where
  pub action : String
  pub actor_id : Option String
  pub entity_id : Option String
  pub occurred_at : ℤ

-- `next` counts the ids that were taken.
pub record Accounts : Type 0 where
  pub users : List UserRow
  pub branches : List BranchRow
  pub assignments : List AssignmentRow
  pub sessions : List SessionRow
  pub audit : List AuditRow
  pub next : ℕ
