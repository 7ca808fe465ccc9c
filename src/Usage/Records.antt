-- ===== src/Usage/Records.antt =====
-- The records of one user and period: the counts that they have, and what counting a request up
-- does to their ids.
use landmark_api.Common.{
  ℕ, ◌≤◌, ◌≡◌, refl, Bool, true, Option, none, some, List, [], ◌∷◌, map, inl, inr, arith, ok,
  String, count, count-pos, Occurs, Result-cases, eqb,
}
use landmark_api.Calendar.{Time}
use landmark_api.Models.{Uuid, ApiUsage}
use landmark_api.Database.{Table, TableLaws, with_where}
use landmark_api.Usage.{count_request, find_usage, in_period, bumped, no_usage, or_no_usage}
use landmark_api.Usage.Counting.{requests, same_id, write_bumped, saved_rows}

abbrev pub has_id : ℕ → ApiUsage → Bool
has_id id u = eqb id u.id

requests-none : (q : ApiUsage → Bool) (us : List ApiUsage) → count q us ≡ 0 → requests q us ≡ 0
requests-none q [] h = refl
requests-none q (u ∷ us) h = ground (arith, requests-none q us)

requests-some :
    (q : ApiUsage → Bool) (u : ApiUsage) (us : List ApiUsage)
    → Occurs u us
    → q u ≡ true
    → count q us ≤ 1
    → requests q us ≡ u.request_count
requests-some q u [] m hit h = absurd m
requests-some q u (v ∷ us) (inl same) hit h = ground (arith, requests-none q us)
requests-some q u (v ∷ us) (inr later) hit h =
    ground (arith, requests-some q u us later hit, count-pos q us u later hit)

count-absent :
    (q : ApiUsage → Bool) (u : ApiUsage) (us : List ApiUsage)
    → count (has_id u.id) us ≡ 0
    → count q (map (write_bumped u) us) ≡ count q us
count-absent q u [] h = refl
count-absent q u (v ∷ us) h = ground (arith, count-absent q u us)

count-bumped :
    (q : ApiUsage → Bool) (u : ApiUsage) (us : List ApiUsage)
    → q (bumped u) ≡ q u
    → Occurs u us
    → count (has_id u.id) us ≤ 1
    → count q (map (write_bumped u) us) ≡ count q us
count-bumped q u [] e m h = absurd m
count-bumped q u (v ∷ us) e (inl same) h =
    let gone : count (has_id u.id) us ≡ 0 = ground arith in ground (arith, count-absent q u us gone)
count-bumped q u (v ∷ us) e (inr later) h =
    ground (arith, count-bumped q u us e later, count-pos (has_id u.id) us u later (ground arith))

-- The ids of the records differ, and a user and a period have one record at most.
pub record AreKeyed (uid : String) (p : Time × Time) (us : List ApiUsage) : Type 0 where
  pub ids : (id : ℕ) → count (has_id id) us ≤ 1
  pub periods : count (in_period uid p) us ≤ 1

bumped-AreKeyed :
    (uid : String) (p : Time × Time) (u : ApiUsage) (us : List ApiUsage)
    → Occurs u us
    → AreKeyed uid p us
    → AreKeyed uid p (map (write_bumped u) us)
unfolding in_period
bumped-AreKeyed uid p u us m keyed = record {
  ids = λ id. rw (count-bumped (has_id id) u us refl m (keyed.ids u.id)) (keyed.ids id);
  periods = rw (count-bumped (in_period uid p) u us refl m (keyed.ids u.id)) keyed.periods;
}

created-AreKeyed :
    (uid : String) (p : Time × Time) (u : ApiUsage) (us : List ApiUsage)
    → count (has_id u.id) us ≡ 0
    → count (in_period uid p) us ≡ 0
    → AreKeyed uid p us
    → AreKeyed uid p (u ∷ us)
created-AreKeyed uid p u us fresh first keyed = record {
  ids = λ id. ground (arith, keyed.ids id);
  periods = ground arith;
}

module _ {US : Type 0} (usages : Table US ApiUsage) (l : TableLaws usages)
    (same_key : usages.same_key ≡ same_id) (uuid_string : Uuid → String) where
  pub count_request-AreKeyed :
      (fresh : ℕ) (uid : Uuid) (p : Time × Time) (us us' : US)
      → count (has_id fresh) (usages.rows us) ≡ 0
      → count_request usages uuid_string fresh uid p us ≡ ok us'
      → AreKeyed (uuid_string uid) p (usages.rows us)
      → AreKeyed (uuid_string uid) p (usages.rows us')
  unfolding count_request find_usage
  count_request-AreKeyed fresh uid p us us' new h keyed =
      let query = with_where (in_period (uuid_string uid) p) in
      elim (Result-cases (usages.first us query)) [
        | inl (none, e) ↦
            let u = record (no_usage (uuid_string uid) p) { id = fresh; request_count = 1 } in
            rw (l.create_rows us u us' (ground arith)) (
              created-AreKeyed (uuid_string uid) p u (usages.rows us) new (l.first_none us query e)
                keyed)
        | inl (some u, e) ↦
            let m = (l.first_some us query u e).0 in
            rw (saved_rows usages l same_key uuid_string u us us' m (ground arith))
              (bumped-AreKeyed (uuid_string uid) p u (usages.rows us) m keyed)
        | inr (m, e) ↦ ground arith
      ]

  -- What GetCurrentUsage finds.
  pub find_usage-requests :
      (uid : Uuid) (p : Time × Time) (us : US) (found : Option ApiUsage)
      → AreKeyed (uuid_string uid) p (usages.rows us)
      → find_usage usages uuid_string uid p us ≡ ok found
      → (or_no_usage (uuid_string uid) p found).request_count
        ≡ requests (in_period (uuid_string uid) p) (usages.rows us)
  unfolding find_usage
  find_usage-requests uid p us found keyed h =
      let query = with_where (in_period (uuid_string uid) p) in
      let records = usages.rows us in
      elim (Result-cases (usages.first us query)) [
        | inl (none, e) ↦
            let nothing = requests-none query.matches records (l.first_none us query e) in
            ground (arith, nothing)
        | inl (some u, e) ↦
            let (m, hit) = l.first_some us query u e in
            let one = requests-some query.matches u records m hit keyed.periods in
            ground (arith, one)
        | inr (m, e) ↦ ground arith
      ]
