-- ===== src/Landmarks/Keys.antt =====
-- The plan in the keys of the cache.
use Prim.Native.Char.{Char, code}
use landmark_api.Common.{
  String, ◌≡◌, refl, List, [], ◌∷◌, ◌++◌, inl, inr, arith, Bool-cases, eqb, ap, ◌∙◌, sym,
}
use landmark_api.Common.Text.{split, join, ◌+++◌, Free, split-cons, split-Free}
use text.Mathlib.TextLemmas.{nil-append, cons-append}
use landmark_api.Landmarks.Handlers.{get_cache_key}

abbrev last : List String → String
last [] = ""
last (s ∷ []) = s
last (s ∷ t ∷ rest) = last (t ∷ rest)

-- The part after the last separator.
abbrev ending : String → String
ending s = last (split b':' s)

-- A text with a separator in it has two parts at least, and ends as what follows does.
record Ends (s t : String) : Type 0 where
  pub one : String
  pub two : String
  pub rest : List String
  pub parts : split b':' s ≡ one ∷ two ∷ rest
  pub same : last (two ∷ rest) ≡ ending t

split_parts : (s : String) (c : Char) (t : String) → code c ≡ b':' → Ends (s +++ String.◌∷◌ c t) t
unfolding split
split_parts String.[] c t e =
    let (y, ys, parts) = split-cons b':' t in
    record {
      one = "";
      two = y;
      rest = ys;
      parts = rw nil-append (ground (arith, parts));
      same = rw parts refl;
    }
split_parts (String.◌∷◌ d s) c t e =
    let r = split_parts s c t e in
    elim (Bool-cases (eqb (code d) b':')) [
      | inl sep ↦ record {
        one = "";
        two = r.one;
        rest = r.two ∷ r.rest;
        parts = rw cons-append (rw sep (rw r.parts refl));
        same = r.same;
      }
      | inr other ↦ record {
        one = String.◌∷◌ d r.one;
        two = r.two;
        rest = r.rest;
        parts = rw cons-append (rw other (rw r.parts refl));
        same = r.same;
      }
    ]

ending-append :
    (s : String) (c : Char) (t : String) → code c ≡ b':' → ending (s +++ String.◌∷◌ c t) ≡ ending t
ending-append s c t e = let r = split_parts s c t e in rw r.parts r.same

colon : (t : String) → ":" +++ t ≡ String.◌∷◌ ":" t
colon t = cons-append ":" "" t ∙ ap (String.◌∷◌ ":") (nil-append t)

ending-join :
    (parts : List String) (plan : String)
    → Free b':' plan
    → ending (join ":" (parts ++ plan ∷ [])) ≡ plan
unfolding join
ending-join [] plan h = rw (split-Free b':' plan h) refl
ending-join (p ∷ []) plan h =
    rw (colon plan) (ending-append p ":" plan refl ∙ ending-join [] plan h)
ending-join (p ∷ q ∷ parts) plan h =
    rw (colon (join ":" (q ∷ parts ++ plan ∷ [])))
      (ending-append p ":" _ refl ∙ ending-join (q ∷ parts) plan h)

snoc-append :
    (s : String) (c : Char) (t : String)
    → (s +++ String.◌∷◌ c String.[]) +++ t ≡ s +++ String.◌∷◌ c t
snoc-append String.[] c t =
    ap (λ x. x +++ t) (nil-append (String.◌∷◌ c String.[]))
    ∙ cons-append c String.[] t
    ∙ ap (String.◌∷◌ c) (nil-append t)
    ∙ sym (nil-append (String.◌∷◌ c t))
snoc-append (String.◌∷◌ d s) c t =
    ap (λ x. x +++ t) (cons-append d s (String.◌∷◌ c String.[]))
    ∙ cons-append d (s +++ String.◌∷◌ c String.[]) t
    ∙ ap (String.◌∷◌ d) (snoc-append s c t)
    ∙ sym (cons-append d s (String.◌∷◌ c t))

prefix : (t : String) → "landmark:" +++ t ≡ "landmark" +++ String.◌∷◌ ":" t
prefix t = snoc-append "landmark" ":" t

ending-key :
    (parts : List String) (plan : String)
    → Free b':' plan
    → ending (get_cache_key (parts ++ plan ∷ [])) ≡ plan
unfolding get_cache_key
ending-key parts plan h =
    rw (prefix (join ":" (parts ++ plan ∷ [])))
      (ending-append "landmark" ":" _ refl ∙ ending-join parts plan h)

-- Two keys of the cache are equal only if they end with the same plan, whatever parts stand before
-- the plans: no answer that was stored for one plan is found by a request of another.
pub get_cache_key-plan :
    (parts parts' : List String) (plan plan' : String)
    → Free b':' plan
    → Free b':' plan'
    → get_cache_key (parts ++ plan ∷ []) ≡ get_cache_key (parts' ++ plan' ∷ [])
    → plan ≡ plan'
unfolding get_cache_key
get_cache_key-plan parts parts' plan plan' h h' e =
    sym (ending-key parts plan h) ∙ ap ending e ∙ ending-key parts' plan' h'
