-- ===== src/Uptime/Window.antt =====
-- What the service knows after a history of requests.
use landmark_api.Common.{
  ℕ, zero, suc, ◌+◌, ◌-◌, ◌≤◌, ◌≡◌, refl, ap, ◌∙◌, Bool, true, false, List, [], ◌∷◌, ◌++◌, arith,
  if◌then◌else◌, ltb, length, drop, count, length-append, inl, inr, Bool-cases,
}
use mathlib.Core.Path.{subst}
use landmark_api.Uptime.{UptimeService, record_request, push, without_first}

-- Requests, the newest first: the response time, and whether it was an error.
abbrev pub History : Type 0
History = List (ℕ × Bool)

-- The response times in their order, the oldest first.
abbrev pub times : History → List ℕ
times [] = []
times ((t, e) ∷ h) = times h ++ t ∷ []

unfoldable pub after_requests : UptimeService → History → UptimeService
after_requests s [] = s
after_requests s ((t, e) ∷ h) = record_request t e (after_requests s h)

module _ {A : Type 0} where
  drop-append : (k : ℕ) (xs ys : List A) → k ≤ length xs → drop k (xs ++ ys) ≡ drop k xs ++ ys
  drop-append zero xs ys h = refl
  drop-append (suc k) [] ys h = ground arith
  drop-append (suc k) (x ∷ xs) ys h = drop-append k xs ys (omega arith)

  without_first-drop : (k : ℕ) (xs : List A) → without_first (drop k xs) ≡ drop (suc k) xs
  without_first-drop zero [] = refl
  without_first-drop zero (x ∷ xs) = refl
  without_first-drop (suc k) [] = refl
  without_first-drop (suc k) (x ∷ xs) = without_first-drop k xs

  length-drop : (k : ℕ) (xs : List A) → length (drop k xs) ≡ length xs - k
  length-drop zero xs = omega arith
  length-drop (suc k) [] = omega arith
  length-drop (suc k) (x ∷ xs) = omega (arith, length-drop k xs)

  -- To push onto the last `n` of a list gives the last `n` of the longer list.
  push-drop :
      (n : ℕ) (xs : List A) (x : A)
      → push n (drop (length xs - n) xs) x ≡ drop (length (xs ++ x ∷ []) - n) (xs ++ x ∷ [])
  push-drop n xs x =
      let zs = xs ++ x ∷ [] in
      let k = length xs - n in
      let size : length zs ≡ length xs + 1 = length-append xs (x ∷ []) in
      let left = length-drop k zs in
      subst (λ ys. (if ltb n (length ys) then without_first ys else ys) ≡ drop (length zs - n) zs)
        (drop-append k xs (x ∷ []) (omega arith))
        (elim (Bool-cases (ltb n (length (drop k zs)))) [
          | inl more ↦
              let e : suc k ≡ length zs - n = ground arith in
              rw more (without_first-drop k zs ∙ ap (λ j. drop j zs) e)
          | inr fits ↦ let e : k ≡ length zs - n = ground arith in rw fits (ap (λ j. drop j zs) e)
        ])

counted : (e : Bool) (m n : ℕ) → m ≡ n → (if e then m + 1 else m) ≡ (if e then 1 else 0) + n
counted true m n h = omega arith
counted false m n h = omega arith

-- After any requests to a service that has recorded none before, it holds the response times of the
-- last thousand of them in their order, and the numbers of all of them and of the errors among
-- them.
pub record_request-window :
    (s : UptimeService) (h : History)
    → s.response_times ≡ []
    → s.total_requests ≡ 0
    → s.error_count ≡ 0
    → ((after_requests s h).response_times ≡ drop (length (times h) - 1000) (times h))
      × ((after_requests s h).total_requests ≡ length h)
      × ((after_requests s h).error_count ≡ count (λ r. r.1) h)
unfolding after_requests record_request
record_request-window s [] no_times no_requests no_errors = (no_times, no_requests, no_errors)
record_request-window s ((t, e) ∷ h) no_times no_requests no_errors =
    let (earlier, total, errors) = record_request-window s h no_times no_requests no_errors in
    (
      ap (λ xs. push 1000 xs t) earlier ∙ push-drop 1000 (times h) t,
      omega (arith, total),
      counted e (after_requests s h).error_count (count (λ r. r.1) h) errors,
    )
