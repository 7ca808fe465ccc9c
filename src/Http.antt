-- ===== src/Http.antt =====
-- Requests, the response writer of net/http, and the context that the middlewares fill. What is
-- sent to the client is fixed at the first WriteHeader or Write: a header that is set later is not
-- sent.
pub mod Fields
pub mod Responses
use landmark_api.Common.{
  ℕ, String, Bool, Option, none, some, List, [], ◌∷◌, ◌++◌, if◌then◌else◌, ◌==◌,
}
use landmark_api.Common.Text.{◌+++◌}
use landmark_api.Models.{User, Subscription}
use Fields.{Headers, set_header, get_header}

pub record Request : Type 0 where
  pub method : String
  pub path : String
  pub remote_addr : String
  pub header : Headers
  -- r.URL.Query: the values of each key are not empty, and Get gives the first.
  pub query : List (String × String)

pub record Sent : Type 0 where
  pub status : ℕ
  pub header : Headers
  pub body : String

pub record Writer : Type 0 where
  pub header : Headers
  pub sent : Option Sent
  -- The codes of the calls of WriteHeader, the last one first.
  pub called : List ℕ

abbrev pub new_writer : Writer
new_writer = record { header = []; sent = none; called = [] }

-- w.Header().Set(k, v)
unfoldable pub set : String → String → Writer → Writer
set k v w = record w { header = set_header k v w.header }

-- What is sent with the first code.
abbrev pub send : ℕ → Writer → Writer
send code w = elim w.sent [
  | none ↦ record w { sent = some (record { status = code; header = w.header; body = "" }) }
  | some s ↦ w
]

-- w.WriteHeader(code): the first call counts.
unfoldable pub write_header : ℕ → Writer → Writer
write_header code w = record (send code w) { called = code ∷ w.called }

abbrev append_body : String → Option Sent → Option Sent
append_body text none = none
append_body text (some s) = some (record s { body = s.body +++ text })

-- w.Write(text): sends the status 200 if none was sent.
unfoldable pub write : String → Writer → Writer
write text w = let v = send 200 w in record v { sent = append_body text v.sent }

-- http.Error(w, msg, code)
unfoldable pub http_error : String → ℕ → Writer → Writer
unfolding set write_header write
http_error msg code w = write (msg +++ "\n") (
    write_header code
      (set "X-Content-Type-Options" "nosniff" (set "Content-Type" "text/plain; charset=utf-8" w)))

-- The context's values under the keys "user" and "subscription".
pub record Context : Type 0 where
  pub user : Option User
  pub subscription : Option Subscription

-- WithUserAndSubscriptionContext
unfoldable pub with_user_and_subscription : Context → User → Subscription → Context
with_user_and_subscription ctx u s = record { user = some u; subscription = some s }

-- A handler over the state `W` of the world that it acts on.
abbrev pub Handler : Type 0 → Type 0
Handler W = Request → Context → Writer → W → Writer × W

abbrev last_code : List ℕ → ℕ
last_code [] = 200
last_code (code ∷ codes) = code

-- A handler behind a ResponseWriter that keeps the code of the last call of WriteHeader, 200 before
-- the first one: that code, and the outcome.
unfoldable pub observed :
    {W : Type 0} → Handler W → Request → Context → Writer → W → ℕ × (Writer × W)
observed next r ctx w s =
    let (v, s') = next r ctx (record w { called = [] }) s in
    (last_code v.called, (record v { called = v.called ++ w.called }, s'))
