-- ===== src/Tests/Review.antt =====
-- A submission that is approved and then rejected, at a concrete one.
use landmark_api.Common.{◌∷◌, [], none, some, refl, sym, ◌∙◌, inl, inr, arith, eq_iff}
use landmark_api.Database.Memory
use landmark_api.Submissions.{approve_submission, reject_submission}
use landmark_api.Submissions.Review.{Step, Reach, IsBacked, Reach-IsBacked}
use landmark_api.Tests.Fixtures.{today, bridge, uuid_string}
use landmark_api.Tests.Submissions.{landmarks, images, details, submissions, audits, store, new_ids}

-- One submission that is pending.
waiting : IsBacked landmarks images details submissions audits uuid_string (bridge ∷ []) store
waiting = record {
  added = [];
  parts = refl;
  sourced = λ l m. absurd m;
  approved = λ x m h. elim m [
    | inl e ↦ ground (arith, e, h, eq_iff "pending" "approved")
    | inr k ↦ absurd k
  ];
  unique = λ x y m n h. elim m [
    | inl e ↦ elim n [ inl d ↦ sym e ∙ d | inr k ↦ absurd k ]
    | inr k ↦ absurd k
  ];
}

Reach-IsBacked_example :
    let approved =
      approve_submission landmarks images details submissions audits uuid_string none none new_ids
        today
        (some 30)
        store in
    IsBacked landmarks images details submissions audits uuid_string
      (bridge ∷ [])
      (reject_submission landmarks images details submissions audits uuid_string today
        (some 30)
        approved.1).1
Reach-IsBacked_example =
    Reach-IsBacked landmarks images details submissions audits uuid_string (Memory.laws _)
      (Memory.laws _) (Memory.laws _) (Memory.laws _) (bridge ∷ [])
      (Reach.next (Reach.next Reach.here (Step.approves none none new_ids today (some 30) refl))
        (Step.rejects today (some 30) refl))
      waiting
