-- ===== src/Models.antt =====
-- The records of internal/models that are kept in the database, with gorm's hooks, and
-- internal/config/rate_limit.go. Columns keep the Go types; DeletedAt is not a field, since a table
-- shows only the rows that are not deleted, and an association that is never loaded is left out;
-- so are the columns of usage records and logs that gorm fills and nothing reads: CreatedAt,
-- UpdatedAt and a log's ID.
pub mod Landmark
pub mod Columns
use landmark_api.Common.{ℕ, String, Bool, if◌then◌else◌, eqb, ◌==◌}
use landmark_api.Common.Int.{ℤ, pos, negsuc}
use landmark_api.Calendar.{Time, is_zero}

-- uuid.UUID: sixteen bytes as a number; uuid.Nil is 0.
abbrev pub Uuid : Type 0
Uuid = ℕ

-- float64 as its bit pattern: operations on it are parameters where they are used.
abbrev pub Float64 : Type 0
Float64 = ℕ

abbrev pub SubscriptionPlan : Type 0
SubscriptionPlan = String

abbrev pub free_plan : SubscriptionPlan
free_plan = "FREE"

abbrev pub pro_plan : SubscriptionPlan
pro_plan = "PRO"

abbrev pub enterprise_plan : SubscriptionPlan
enterprise_plan = "ENTERPRISE"

pub record User : Type 0 where
  pub id : Uuid
  pub name : String
  pub email : String
  pub password_hash : String
  pub role : String
  pub stripe_id : String
  pub has_access : Bool
  pub on_boarding : Bool
  pub access_granted_at : Time
  pub access_revoked_at : Time
  pub created_at : Time
  pub updated_at : Time

pub record Subscription : Type 0 where
  pub id : Uuid
  pub user_id : Uuid
  pub plan_type : SubscriptionPlan
  pub stripe_customer_id : String
  pub stripe_plan_id : String
  pub start_date : Time
  pub end_date : Time
  pub status : String
  pub created_at : Time
  pub updated_at : Time

pub record ApiKey : Type 0 where
  pub id : Uuid
  pub user_id : Uuid
  pub key : String
  pub created_at : Time
  pub updated_at : Time

pub record ApiUsage : Type 0 where
  pub id : ℕ
  pub user_id : String
  pub request_count : ℕ
  pub period_start : Time
  pub period_end : Time

pub record RequestLog : Type 0 where
  pub user_id : String
  pub endpoint : String
  pub method : String
  pub status : String
  pub status_code : ℕ
  pub summary : String
  pub timestamp : Time

pub record AuditLog : Type 0 where
  pub admin_id : ℕ
  pub action : String
  pub entity_type : String
  pub entity_id : String
  pub details : String
  pub timestamp : Time

pub record RateLimitConfig : Type 0 where
  pub limits : SubscriptionPlan → ℤ
  pub ip_burst_limit : ℕ

-- NewRateLimitConfig: a plan that is not in the map has the zero value, and so has IPBurstLimit,
-- which the literal does not set.
unfoldable pub new_rate_limit_config : RateLimitConfig
new_rate_limit_config = record {
  limits = λ plan.
      if plan == free_plan
      then pos 1000
      else if plan == pro_plan
      then pos 300_000
      else if plan == enterprise_plan
      then negsuc 0
      else pos 0;
  ip_burst_limit = 0;
}

-- `if id == uuid.Nil { id = uuid.New() }`, for the new id that the call would give.
abbrev pub or_new_id : Uuid → Uuid → Uuid
or_new_id fresh id = if eqb id 0 then fresh else id

-- `if t.IsZero() { t = now }`.
abbrev pub or_now : Time → Time → Time
or_now now t = if is_zero t then now else t

-- (*User).BeforeCreate
unfoldable pub before_create_user : Uuid → Time → User → User
before_create_user fresh now u = record u {
  id = or_new_id fresh u.id;
  created_at = or_now now u.created_at;
  updated_at = or_now now u.updated_at;
}

-- (*User).BeforeUpdate
abbrev pub before_update_user : Time → User → User
before_update_user now u = record u { updated_at = now }

-- (*Subscription).BeforeUpdate
abbrev pub before_update_subscription : Time → Subscription → Subscription
before_update_subscription now s = record s { updated_at = now }

-- (*Subscription).BeforeCreate
unfoldable pub before_create_subscription : Uuid → Time → Subscription → Subscription
before_create_subscription fresh now s = record s {
  id = or_new_id fresh s.id;
  created_at = or_now now s.created_at;
  updated_at = or_now now s.updated_at;
}
