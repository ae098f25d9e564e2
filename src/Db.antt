-- ===== src/Db.antt =====
-- The PostgreSQL tables (src/entities, src/migrations) as keyed tables. A bigint identity is a
-- number, and the id of a user or a product is the text that the driver returns for it. The
-- identity sequences stand beside the tables: a rollback does not take them back.
use marketplace_template.Prelude.{ℕ, String, Bool, Option, List, Table}
use marketplace_template.Json.{Json}

pub data UserRole : Type 0 where
  buyer seller admin : UserRole

pub record User : Type 0 where
  pub email : String
  pub role : UserRole
  pub balance_cents : ℕ

pub record Product : Type 0 where
  pub name : String
  pub seller_id : String
  pub price_cents : ℕ
  pub stock : ℕ
  pub is_active : Bool

pub data OrderStatus : Type 0 where
  pending paid shipped delivered cancelled : OrderStatus

pub record OrderRow : Type 0 where
  pub user_id : String
  pub status : OrderStatus
  pub total_cents : ℕ

pub record OrderItemRow : Type 0 where
  pub id : ℕ
  pub order_id : ℕ
  pub product_id : String
  pub quantity : ℕ
  pub unit_price_cents : ℕ

pub data JobStatus : Type 0 where
  pending done : JobStatus

pub record Job : Type 0 where
  pub kind : String
  pub payload : Json
  pub status : JobStatus
  pub processed_count : ℕ
  pub worker_id : Option String

pub record OutboxRow : Type 0 where
  pub aggregate_id : String
  pub type : String
  pub payload : Json
  pub created_at : ℕ
  pub published_at : Option ℕ
  pub attempts : ℕ

pub record KeyRow : Type 0 where
  pub order_id : ℕ
  pub request_hash : String

pub record Db : Type 0 where
  pub users : Table String User
  pub products : Table String Product
  pub orders : Table ℕ OrderRow
  pub order_items : List OrderItemRow
  pub jobs : Table ℕ Job
  pub outbox : Table ℕ OutboxRow
  pub idempotency_keys : Table (String × String) KeyRow
  pub next_order : ℕ
  pub next_item : ℕ
  pub next_job : ℕ
  pub next_outbox : ℕ

-- ROLLBACK: the tables are as before, and the identities that were drawn are used up.
unfoldable pub rollback : Db → Db → Db
rollback before after = record before {
  next_order = after.next_order;
  next_item = after.next_item;
  next_job = after.next_job;
  next_outbox = after.next_outbox;
}

-- The largest value of a PostgreSQL `integer`.
abbrev pub int_max : ℕ
int_max = 2147483647
