-- ===== src/Usage/Counting.antt =====
-- How the records of usage change when a request is counted.
use landmark_api.Common.{
  ℕ, ◌+◌, ◌≤◌, ◌≡◌, ◌≢◌, refl, Bool, true, none, some, List, [], ◌∷◌, map, inl, inr, arith, ok,
  String, if◌then◌else◌, count, count-pos, Occurs, Result-cases, eqb, eq_iff,
}
use mathlib.Core.Path.{subst}
use landmark_api.Calendar.{Time}
use landmark_api.Models.{Uuid, ApiUsage}
use landmark_api.Database.{Table, TableLaws, with_where}
use landmark_api.Usage.{count_request, find_usage, in_period, bumped, no_usage}

-- The requests that the matching records count together.
abbrev pub requests : (ApiUsage → Bool) → List ApiUsage → ℕ
requests q [] = 0
requests q (u ∷ us) = (if q u then u.request_count else 0) + requests q us

abbrev pub same_id : ApiUsage → ApiUsage → Bool
same_id u v = eqb u.id v.id

-- `u` counted up, in the place of the record with its id.
abbrev pub write_bumped : ApiUsage → ApiUsage → ApiUsage
write_bumped u v = if same_id (bumped u) v then bumped u else v

-- A stored record counted up: nothing is changed where its id is absent.
requests-absent :
    (q : ApiUsage → Bool) (u : ApiUsage) (us : List ApiUsage)
    → count (same_id (bumped u)) us ≡ 0
    → requests q (map (write_bumped u) us) ≡ requests q us
requests-absent q u [] h = refl
requests-absent q u (v ∷ us) h = ground (arith, requests-absent q u us)

requests-bumped :
    (q : ApiUsage → Bool) (u : ApiUsage) (us : List ApiUsage)
    → q (bumped u) ≡ q u
    → Occurs u us
    → count (same_id u) us ≤ 1
    → requests q (map (write_bumped u) us) ≡ requests q us + (if q u then 1 else 0)
requests-bumped q u [] e m h = absurd m
requests-bumped q u (v ∷ us) e (inl same) h =
    let gone : count (same_id (bumped u)) us ≡ 0 = ground arith in
    ground (arith, requests-absent q u us gone)
requests-bumped q u (v ∷ us) e (inr later) h =
    ground (arith, requests-bumped q u us e later, count-pos (same_id u) us u later (ground arith))

in_period-bumped :
    (uid : String) (p : Time × Time) (u : ApiUsage) → in_period uid p (bumped u) ≡ in_period uid p u
unfolding in_period
in_period-bumped uid p u = refl

-- A record of a period stands in another exactly when the two periods are one.
same_period :
    (uid uid' : String) (p p' : Time × Time) (u : ApiUsage)
    → in_period uid p u ≡ true
    → in_period uid' p' u ≡ in_period uid' p' (no_usage uid p)
unfolding in_period
same_period uid uid' p p' u h = ground (arith, eq_iff u.user_id uid)

module _ {US : Type 0} (usages : Table US ApiUsage) (l : TableLaws usages)
    (keyed : usages.same_key ≡ same_id) (uuid_string : Uuid → String) where
  pub saved_rows :
      (u : ApiUsage) (us us' : US)
      → Occurs u (usages.rows us)
      → usages.save us (bumped u) ≡ ok us'
      → usages.rows us' ≡ map (write_bumped u) (usages.rows us)
  saved_rows u us us' m h =
      let rows = usages.rows us in
      let stored : count (same_id (bumped u)) rows ≢ 0 =
        λ z. omega (arith, z, count-pos (same_id (bumped u)) rows u m (ground arith)) in
      subst
        (λ f.
          count (f (bumped u)) rows ≢ 0
          → usages.rows us' ≡ map (λ v. if f (bumped u) v then bumped u else v) rows)
        keyed (l.save_rows us (bumped u) us' h) stored

  created :
      (fresh : ℕ) (uid : Uuid) (p : Time × Time) (us us' : US) (uid' : String) (p' : Time × Time)
      → usages.create us (record (no_usage (uuid_string uid) p) { id = fresh; request_count = 1 })
        ≡ ok us'
      → requests (in_period uid' p') (usages.rows us')
        ≡ requests (in_period uid' p') (usages.rows us)
          + (if in_period uid' p' (no_usage (uuid_string uid) p) then 1 else 0)
  unfolding in_period
  created fresh uid p us us' uid' p' h = rw (l.create_rows us _ us' h) (omega arith)

  saved :
      (uid : Uuid) (p : Time × Time) (us us' : US) (uid' : String) (p' : Time × Time) (u : ApiUsage)
      → ((u : ApiUsage) → Occurs u (usages.rows us) → count (same_id u) (usages.rows us) ≤ 1)
      → Occurs u (usages.rows us)
      → in_period (uuid_string uid) p u ≡ true
      → usages.save us (bumped u) ≡ ok us'
      → requests (in_period uid' p') (usages.rows us')
        ≡ requests (in_period uid' p') (usages.rows us)
          + (if in_period uid' p' (no_usage (uuid_string uid) p) then 1 else 0)
  saved uid p us us' uid' p' u unique m hit h = rw (saved_rows u us us' m h) (
      rw (← same_period (uuid_string uid) uid' p p' u hit) (
        requests-bumped (in_period uid' p') u (usages.rows us) (in_period-bumped uid' p' u) m
          (unique u m)))

  -- A call that counts a request adds one to the requests of the user's period, and nothing to any
  -- other user or period, whether the period had a record before or not. The records have ids that
  -- differ.
  pub requests-count_request :
      (fresh : ℕ) (uid : Uuid) (p : Time × Time) (us us' : US) (uid' : String) (p' : Time × Time)
      → ((u : ApiUsage) → Occurs u (usages.rows us) → count (same_id u) (usages.rows us) ≤ 1)
      → count_request usages uuid_string fresh uid p us ≡ ok us'
      → requests (in_period uid' p') (usages.rows us')
        ≡ requests (in_period uid' p') (usages.rows us)
          + (if in_period uid' p' (no_usage (uuid_string uid) p) then 1 else 0)
  unfolding count_request find_usage
  requests-count_request fresh uid p us us' uid' p' unique h =
      elim (Result-cases (usages.first us (with_where (in_period (uuid_string uid) p)))) [
        | inl (none, e) ↦ created fresh uid p us us' uid' p' (ground arith)
        | inl (some u, e) ↦
            let (m, hit) = l.first_some us (with_where (in_period (uuid_string uid) p)) u e in
            saved uid p us us' uid' p' u unique m hit (ground arith)
        | inr (m, e) ↦ ground arith
      ]
