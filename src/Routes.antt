-- ===== src/Routes.antt =====
-- The routes of the server, as cmd/api/main.go registers them: the prefix of each router, the
-- middlewares of its routes from the outside in, and the routes in their order.
use landmark_api.Common.{String, List, [], ◌∷◌}

pub data Guard : Type 0 where
  logging uptime api_key rate_limit request_log auth admin : Guard

-- The handlers by their names.
pub data Endpoint : Type 0 where
  register login register_with_email health_check : Endpoint
  swagger uptime_page create_submission submit_photos : Endpoint
  list_landmarks get_landmark list_landmarks_by_country list_landmarks_by_name : Endpoint
  list_landmarks_by_city list_landmark_by_category search_landmarks get_suggestions : Endpoint
  validate_token check_user get_current_usage get_user_logs : Endpoint
  update_user handle_create_check_out register_sub handle_stripe_webhook : Endpoint
  handle_user_billing_info upload create_landmark list_admin_landmarks : Endpoint
  admin_edit_handler admin_delete_handler list_admin_categories get_landmark_stats : Endpoint
  list_audit_logs list_pending_submissions approve_submission reject_submission : Endpoint

-- A route of a router; `query` is the parameter that Queries asks for, "" for none.
pub record Route : Type 0 where
  pub method : String
  pub path : String
  pub query : String
  pub endpoint : Endpoint

pub record Router : Type 0 where
  pub prefix : String
  pub guards : List Guard
  pub routes : List Route

abbrev route : String → String → Endpoint → Route
route method path endpoint = record {
  method = method;
  path = path;
  query = "";
  endpoint = endpoint;
}

abbrev pub public_router : Router
public_router = record {
  prefix = "";
  guards = [];
  routes =
      route "POST" "/auth/register" register
      ∷ route "POST" "/auth/login" login
      ∷ route "POST" "/auth/register-email" register_with_email
      ∷ route "GET" "/health" health_check
      ∷ route "GET" "/swagger" swagger
      ∷ route "GET" "/uptime" uptime_page
      ∷ [];
}

abbrev pub contribution_router : Router
contribution_router = record {
  prefix = "/api/v1/contribution";
  guards = [];
  routes =
      route "POST" "/submit-landmark" create_submission
      ∷ route "POST" "/submit-photo" submit_photos
      ∷ [];
}

abbrev pub api_router : Router
api_router = record {
  prefix = "/api/v1";
  guards = api_key ∷ rate_limit ∷ request_log ∷ [];
  routes =
      route "GET" "/landmarks" list_landmarks
      ∷ route "GET" "/landmarks/{id}" get_landmark
      ∷ route "GET" "/landmarks/country/{country}" list_landmarks_by_country
      ∷ route "GET" "/landmarks/name/{name}" list_landmarks_by_name
      ∷ route "GET" "/landmarks/city/{city}" list_landmarks_by_city
      ∷ route "GET" "/landmarks/category/{category}" list_landmark_by_category
      ∷ route "POST" "/landmarks/search" search_landmarks
      ∷ [];
}

abbrev pub suggestion_router : Router
suggestion_router = record {
  prefix = "/api/v1/suggestions";
  guards = api_key ∷ [];
  routes =
      record (route "GET" "/{type}" get_suggestions) { query = "search" }
      ∷ route "GET" "/landmarks/{id}" get_landmark
      ∷ route "GET" "/landmarks/country/{country}" list_landmarks_by_country
      ∷ route "GET" "/landmarks/name/{name}" list_landmarks_by_name
      ∷ route "GET" "/landmarks/city/{city}" list_landmarks_by_city
      ∷ route "GET" "/landmarks/category/{category}" list_landmark_by_category
      ∷ [];
}

abbrev pub user_router : Router
user_router = record {
  prefix = "/user/api/v1";
  guards = auth ∷ [];
  routes =
      route "GET" "/validate-token" validate_token
      ∷ route "GET" "/me" check_user
      ∷ route "GET" "/usage" get_current_usage
      ∷ route "GET" "/requests/logs" get_user_logs
      ∷ route "PUT" "/update" update_user
      ∷ [];
}

abbrev pub subscription_router : Router
subscription_router = record {
  prefix = "/subscription";
  guards = [];
  routes =
      route "POST" "/create-checkout" handle_create_check_out
      ∷ route "POST" "/create-user-account" register_sub
      ∷ route "POST" "/stripe-webhook" handle_stripe_webhook
      ∷ [];
}

abbrev pub subscription_router_manage : Router
subscription_router_manage = record {
  prefix = "/subscription/manage";
  guards = auth ∷ [];
  routes = route "GET" "/get-billing" handle_user_billing_info ∷ [];
}

abbrev pub admin_router : Router
admin_router = record {
  prefix = "/admin";
  guards = admin ∷ [];
  routes =
      route "POST" "/landmarks/upload-photo" upload
      ∷ route "POST" "/landmarks/create" create_landmark
      ∷ route "GET" "/landmarks" list_admin_landmarks
      ∷ route "PUT" "/landmarks/{id}" admin_edit_handler
      ∷ route "DELETE" "/landmarks/{id}" admin_delete_handler
      ∷ route "GET" "/landmarks/category" list_admin_categories
      ∷ route "GET" "/landmarks/stats" get_landmark_stats
      ∷ route "GET" "/audit-logs" list_audit_logs
      ∷ route "GET" "/submissions/landmarks" list_pending_submissions
      ∷ route "PUT" "/submissions/landmarks/approve/{id}" approve_submission
      ∷ route "DELETE" "/submission/landmarks/reject/{id}" reject_submission
      ∷ [];
}

-- The middlewares around the routes of a router: those of the main router stand around all.
abbrev pub all_guards : Router → List Guard
all_guards r = logging ∷ uptime ∷ r.guards

-- In the order of their registration.
abbrev pub routers : List Router
routers =
    public_router ∷ contribution_router ∷ api_router ∷ suggestion_router ∷ user_router
    ∷ subscription_router ∷ subscription_router_manage ∷ admin_router ∷ []
