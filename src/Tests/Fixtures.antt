-- ===== src/Tests/Fixtures.antt =====
-- Concrete values for the tests.
use landmark_api.Common.{
  if◌then◌else◌, String, true, false, some, List, [], ◌∷◌, eqb, ◌==◌, ◌≡◌, arith,
}
use landmark_api.Common.{Option, none, eq_iff, ◌≢◌}
use landmark_api.Calendar.{Time, zero_time}
use landmark_api.Models.{Uuid, User, Subscription, ApiKey, ApiUsage, free_plan}
use landmark_api.Models.Landmark.{Landmark}
use landmark_api.Database.{Table, TableLaws}
use landmark_api.Database.Memory
use landmark_api.Auth.{Db, Fresh}
use landmark_api.Errors.{Error}
use landmark_api.Stripe.{Prices, StripeSubscription}
use landmark_api.Http.{Request}

abbrev pub today : Time
today = record { year = 2024; month = 11; day = 15; nanos = 36_000_000_000_000 }

abbrev pub last_spring : Time
last_spring = record { year = 2024; month = 3; day = 31; nanos = 0 }

abbrev pub next_year : Time
next_year = record { year = 2025; month = 1; day = 1; nanos = 0 }

abbrev pub alice : User
alice = record {
  id = 1;
  name = "Alice";
  email = "alice@example.com";
  password_hash = "hash of secret";
  role = "admin";
  stripe_id = "cus_1";
  has_access = false;
  on_boarding = true;
  access_granted_at = zero_time;
  access_revoked_at = zero_time;
  created_at = last_spring;
  updated_at = last_spring;
}

abbrev pub alice_free : Subscription
alice_free = record {
  id = 10;
  user_id = 1;
  plan_type = free_plan;
  stripe_customer_id = "";
  stripe_plan_id = "";
  start_date = last_spring;
  end_date = zero_time;
  status = "active";
  created_at = last_spring;
  updated_at = last_spring;
}

abbrev pub alice_key : ApiKey
alice_key = record {
  id = 20;
  user_id = 1;
  key = "key-of-alice";
  created_at = last_spring;
  updated_at = last_spring;
}

abbrev pub users : Table (List User) User
users = Memory.table (λ u v. eqb u.id v.id)

abbrev pub users_laws : TableLaws users
users_laws = Memory.laws (λ u v. eqb u.id v.id)

abbrev pub subs : Table (List Subscription) Subscription
subs = Memory.table (λ s t. eqb s.id t.id)

abbrev pub subs_laws : TableLaws subs
subs_laws = Memory.laws (λ s t. eqb s.id t.id)

abbrev pub keys : Table (List ApiKey) ApiKey
keys = Memory.table (λ k l. eqb k.id l.id)

abbrev pub keys_laws : TableLaws keys
keys_laws = Memory.laws (λ k l. eqb k.id l.id)

abbrev pub usages : Table (List ApiUsage) ApiUsage
usages = Memory.table (λ u v. eqb u.id v.id)

abbrev pub usages_laws : TableLaws usages
usages_laws = Memory.laws (λ u v. eqb u.id v.id)

abbrev pub db : Db (List User) (List Subscription) (List ApiKey)
db = record { users = alice ∷ []; subs = alice_free ∷ []; keys = alice_key ∷ [] }

abbrev pub empty_db : Db (List User) (List Subscription) (List ApiKey)
empty_db = record { users = []; subs = []; keys = [] }

abbrev pub fresh : Fresh
fresh = record { user_id = 1; key_id = 21; key = "new-key"; subscription_id = 11 }

-- The text of an id: Alice's, or a nobody's.
abbrev pub uuid_string : Uuid → String
uuid_string id = if eqb id 1 then "alice" else "nobody"

abbrev pub prices : Prices
prices = record { monthly_free = "p0"; monthly = "p1"; annual = "p2"; enterprise = "p3" }

abbrev pub paid : String → StripeSubscription
paid price = record {
  id = "sub_1";
  customer = some "cus_1";
  status = "active";
  current_period_end = next_year;
  item_prices = some (some price ∷ []);
}

-- What stands in the tables after a handler that may panic.
abbrev pub stored_by : {D : Type 0} → D → Option (Option Error × D) → D
stored_by before none = before
stored_by before (some r) = r.1

abbrev pub request : Request
request = record {
  method = "GET";
  path = "/api/v1/landmarks";
  remote_addr = "10.0.0.1:4000";
  header = ("X-Api-Key", "key-of-alice") ∷ [];
  query = [];
}

pub differ : (s t : String) → (s == t) ≡ false → s ≢ t
differ s t h e = ground (arith, eq_iff s t)

abbrev pub bridge : Landmark
bridge = record {
  id = 7;
  name = "Old Bridge";
  description = "";
  latitude = 0;
  longitude = 0;
  country = "Bosnia";
  city = "Mostar";
  category = "bridge";
  image_url = "bridge.jpg";
  images = [];
  created_at = today;
  updated_at = today;
}
