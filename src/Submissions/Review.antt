-- ===== src/Submissions/Review.antt =====
-- Submissions that are handed in, approved and rejected in any order.
use landmark_api.Common.{
  String, ◌≡◌, ◌≢◌, refl, sym, ap, ◌∙◌, Option, none, some, List, [], ◌∷◌, ◌++◌, inl, inr, arith,
  map, if◌then◌else◌, Occurs, Occurs-map, of-map, append-right, Bool-cases, Result-cases, eq_iff,
}
use mathlib.Core.Path.{subst}
use mathlib.Core.List.{append_assoc}
use landmark_api.Common.Unique.{Occurs-append}
use landmark_api.Calendar.{Time}
use landmark_api.Models.{Uuid, AuditLog}
use landmark_api.Models.Landmark.{
  Landmark, LandmarkImage, LandmarkDetail, SubmissionLandmark, before_create, before_save,
}
use landmark_api.Database.{Table, TableLaws, with_where}
use landmark_api.Submissions.{
  Store, NewIds, landmark_of, has_id, with_status, approve_submission, reject_submission,
}
use landmark_api.Submissions.Approval.{IsApproved, approve_submission_lem}

-- The landmark has the data of the submission.
abbrev pub Carries : SubmissionLandmark → Landmark → Type 0
Carries x l =
    (l.name ≡ x.name)
    × (l.description ≡ x.description)
    × (l.latitude ≡ x.latitude)
    × (l.longitude ≡ x.longitude)
    × (l.country ≡ x.country)
    × (l.city ≡ x.city)
    × (l.category ≡ x.category)

-- The landmarks besides the old ones come from stored submissions, and each submission that is
-- approved has one. No two submissions have the same id.
pub record Backed (old ls : List Landmark) (xs : List SubmissionLandmark) : Type 0 where
  pub added : List Landmark
  pub parts : ls ≡ added ++ old
  pub sourced :
      (l : Landmark) → Occurs l added → (x : SubmissionLandmark) × Occurs x xs × Carries x l
  pub approved :
      (x : SubmissionLandmark)
      → Occurs x xs
      → x.status ≡ "approved"
      → (l : Landmark) × Occurs l added × Carries x l
  pub unique : (x y : SubmissionLandmark) → Occurs x xs → Occurs y xs → x.id ≡ y.id → x ≡ y

abbrev marked : Time → String → Uuid → SubmissionLandmark → SubmissionLandmark
marked now status i x = if has_id i x then with_status now status x else x

marked-Carries :
    (now : Time) (status : String) (i : Uuid) (x : SubmissionLandmark) (l : Landmark)
    → Carries x l
    → Carries (marked now status i x) l
marked-Carries now status i x l c = ground arith

marked-id :
    (now : Time) (status : String) (i : Uuid) (x : SubmissionLandmark)
    → (marked now status i x).id ≡ x.id
marked-id now status i x = ground arith

-- A status is written, and the landmarks in `more` are stored.
Backed-marked :
    (old ls more : List Landmark) (xs : List SubmissionLandmark) (now : Time) (status : String)
    (i : Uuid) (b : Backed old ls xs)
    → ((l : Landmark) → Occurs l more → (x : SubmissionLandmark) × Occurs x xs × Carries x l)
    → ((x : SubmissionLandmark)
        → Occurs x xs
        → x.id ≡ i
        → status ≡ "approved"
        → (l : Landmark) × Occurs l (more ++ b.added) × Carries x l)
    → Backed old (more ++ ls) (map (marked now status i) xs)
Backed-marked old ls more xs now status i b source target = record {
  added = more ++ b.added;
  parts = ap (λ r. more ++ r) b.parts ∙ sym (append_assoc more b.added old);
  sourced = λ l m.
      let from : (x : SubmissionLandmark) × Occurs x xs × Carries x l =
        elim (Occurs-append more b.added l m) [ inl k ↦ source l k | inr k ↦ b.sourced l k ] in
      (
        marked now status i from.0,
        Occurs-map (marked now status i) xs from.0 from.1,
        marked-Carries now status i from.0 l from.2,
      );
  approved = λ y m h.
      let (x, k, e) = of-map (marked now status i) xs y m in
      elim (Bool-cases (has_id i x)) [
        | inl hit ↦
            let written : (marked now status i x).status ≡ status = rw hit refl in
            let (l, at, c) = target x k (ground arith) (sym written ∙ ap (λ z. z.status) e ∙ h) in
            (l, at, subst (λ z. Carries z l) e (marked-Carries now status i x l c))
        | inr miss ↦
            let left : marked now status i x ≡ x = rw miss refl in
            let same : x ≡ y = sym left ∙ e in
            let (l, at, c) = b.approved x k (ap (λ z. z.status) same ∙ h) in
            (l, append-right more b.added l at, subst (λ z. Carries z l) same c)
      ];
  unique = λ y z m n h.
      let (v, k, e) = of-map (marked now status i) xs y m in
      let (w, j, d) = of-map (marked now status i) xs z n in
      let same : v ≡ w = b.unique v w k j (
        sym (marked-id now status i v)
        ∙ ap (λ x. x.id) e
        ∙ h
        ∙ sym (ap (λ x. x.id) d)
        ∙ marked-id now status i w) in
      sym e ∙ ap (marked now status i) same ∙ d;
}

landmark_of-Carries :
    (hook id : Uuid) (now : Time) (x : SubmissionLandmark)
    → Carries x (before_create hook now (before_save hook (landmark_of id x)))
unfolding before_create before_save
landmark_of-Carries hook id now x = (refl, refl, refl, refl, refl, refl, refl)

not_pending : ◌≢◌ {A = String} "pending" "approved"
not_pending h = ground (arith, eq_iff "pending" "approved")

not_rejected : ◌≢◌ {A = String} "rejected" "approved"
not_rejected h = ground (arith, eq_iff "rejected" "approved")

module _ {LS IS DS SS AS : Type 0} (landmarks : Table LS Landmark) (images : Table IS LandmarkImage)
    (details : Table DS LandmarkDetail) (submissions : Table SS SubmissionLandmark)
    (audits : Table AS AuditLog) (uuid_string : Uuid → String) where
  -- A submission with a new id is handed in, or an administrator approves or rejects one.
  pub data Step (s u : Store LS IS DS SS AS) : Type 0 where
    submitted :
        (x : SubmissionLandmark) (ss : SS)
        → submissions.rows ss ≡ x ∷ submissions.rows s.submissions
        → ((y : SubmissionLandmark) → Occurs y (submissions.rows s.submissions) → y.id ≢ x.id)
        → x.status ≡ "pending"
        → u ≡ record s { submissions = ss }
        → Step s u
    approves :
        (begin commit : Option String) (new : NewIds) (now : Time) (id : Option Uuid)
        → u
          ≡ (approve_submission landmarks images details submissions audits uuid_string begin commit
              new now id s).1
        → Step s u
    rejects :
        (now : Time) (id : Option Uuid)
        → u ≡ (reject_submission landmarks images details submissions audits uuid_string now id s).1
        → Step s u

  pub data Reach (s : Store LS IS DS SS AS) : Store LS IS DS SS AS → Type 0 where
    here : Reach s s
    next : {t u : Store LS IS DS SS AS} → Reach s t → Step t u → Reach s u

  abbrev pub IsBacked : List Landmark → Store LS IS DS SS AS → Type 0
  IsBacked old s = Backed old (landmarks.rows s.landmarks) (submissions.rows s.submissions)

  module _ (ll : TableLaws landmarks) (il : TableLaws images) (dl : TableLaws details)
      (sl : TableLaws submissions) where
    submitted-IsBacked :
        (old ls : List Landmark) (x : SubmissionLandmark) (xs : List SubmissionLandmark)
        → ((y : SubmissionLandmark) → Occurs y xs → y.id ≢ x.id)
        → x.status ≡ "pending"
        → Backed old ls xs
        → Backed old ls (x ∷ xs)
    submitted-IsBacked old ls x xs new waiting b = record {
      added = b.added;
      parts = b.parts;
      sourced = λ l m. let (y, k, c) = b.sourced l m in (y, inr k, c);
      approved = λ y m h. elim m [
        | inl e ↦ absurd (not_pending (sym waiting ∙ ap (λ z. z.status) e ∙ h))
        | inr k ↦ b.approved y k h
      ];
      unique = λ y z m n h. elim m [
        | inl e ↦ elim n [
          | inl d ↦ sym e ∙ d
          | inr k ↦ absurd (new z k (sym h ∙ sym (ap (λ v. v.id) e)))
        ]
        | inr j ↦ elim n [
          | inl d ↦ absurd (new y j (h ∙ sym (ap (λ v. v.id) d)))
          | inr k ↦ b.unique y z j k h
        ]
      ];
    }

    approved-IsBacked :
        (old : List Landmark) (new : NewIds) (now : Time) (i : Uuid) (sub : SubmissionLandmark)
        (s u : Store LS IS DS SS AS)
        → IsApproved landmarks images details submissions audits ll il dl sl uuid_string new now i
            sub s u
        → IsBacked old s
        → IsBacked old u
    approved-IsBacked old new now i sub s u a b =
        let l = before_create new.hook now (before_save new.hook (landmark_of new.landmark sub)) in
        let c = landmark_of-Carries new.hook new.landmark now sub in
        rw a.one_landmark (
          rw a.marked (
            Backed-marked old (landmarks.rows s.landmarks) (l ∷ []) (submissions.rows s.submissions)
              now "approved" sub.id b
              (λ m k. elim k [
                | inl e ↦ (sub, a.stored, subst (Carries sub) e c)
                | inr absent ↦ absurd absent
              ])
              (λ x k same h.
                (l, inl refl, subst (λ y. Carries y l) (b.unique sub x a.stored k (sym same)) c))))

    rejected-IsBacked :
        (old : List Landmark) (now : Time) (id : Option Uuid) (s : Store LS IS DS SS AS)
        → IsBacked old s
        → IsBacked old
            (reject_submission landmarks images details submissions audits uuid_string now id s).1
    unfolding reject_submission
    rejected-IsBacked old now none s b = b
    rejected-IsBacked old now (some i) s b =
        elim (Result-cases (submissions.first s.submissions (with_where (has_id i)))) [
          | inr (m, e) ↦ rw (e, reject_submission) b
          | inl (none, e) ↦ rw (e, reject_submission) b
          | inl (some sub, e) ↦
              elim (Result-cases
                (submissions.updates s.submissions (has_id sub.id) (with_status now "rejected"))) [
                  | inr (m, d) ↦ rw (e, d, reject_submission) b
                  | inl ((ss, n), d) ↦
                      rw (e, d, reject_submission)
                        (rw (sl.updates_rows s.submissions _ _ ss n d).0 (
                          Backed-marked old (landmarks.rows s.landmarks) []
                            (submissions.rows s.submissions) now "rejected" sub.id b
                            (λ l k. absurd k) (λ x k same h. absurd (not_rejected h))))
                ]
        ]

    Step-IsBacked :
        {s u : Store LS IS DS SS AS} (old : List Landmark)
        → Step s u
        → IsBacked old s
        → IsBacked old u
    Step-IsBacked {s} {u} old (submitted x ss rows new waiting e) b =
        rw e (rw rows (submitted-IsBacked old _ x _ new waiting b))
    Step-IsBacked {s} {u} old (approves begin commit new now id e) b =
        elim (approve_submission_lem landmarks images details submissions audits ll il dl sl
          uuid_string begin commit new now id s) [
            | inl (refusal, answer, same) ↦ rw (e ∙ same) b
            | inr (i, sub, given, answer, a) ↦ rw e (approved-IsBacked old new now i sub s _ a b)
          ]
    Step-IsBacked {s} {u} old (rejects now id e) b = rw e (rejected-IsBacked old now id s b)

    -- In whatever order submissions with new ids are handed in, approved and rejected, with errors
    -- of the database in between: a landmark that was not there at first has the data of a stored
    -- submission, each submission that is approved has such a landmark, and no two submissions have
    -- the same id. This holds of the store at first.
    pub Reach-IsBacked :
        {s u : Store LS IS DS SS AS} (old : List Landmark)
        → Reach s u
        → IsBacked old s
        → IsBacked old u
    Reach-IsBacked old here b = b
    Reach-IsBacked old (next r st) b = Step-IsBacked old st (Reach-IsBacked old r b)
