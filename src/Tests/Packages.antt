-- ===== src/Tests/Packages.antt =====
-- The packages bcrypt, jwt and uuid as functions that can be run: the hash of a password is the
-- password, a token is its claims written out, and an id is written in unary.
use Prim.Native.Char.{Char, code}
use landmark_api.Common.{
  ℕ, zero, suc, String, ◌≡◌, refl, Option, none, some, ok, ◌==◌, eq_iff, eqb, if◌then◌else◌, arith,
}
use mathlib.Core.Option
use landmark_api.Auth.{Crypto, Claims}
use landmark_api.Auth.Session.{CryptoLaws}

abbrev mark : Char
mark = "x"

abbrev end_mark : Char
end_mark = "e"

-- Puts a text in front of another: each character after a mark, and an end mark.
unfoldable pub encode : String → String → String
encode String.[] rest = String.◌∷◌ end_mark rest
encode (String.◌∷◌ c s) rest = String.◌∷◌ mark (String.◌∷◌ c (encode s rest))

unfoldable pub decode : String → String × String
decode String.[] = ("", "")
decode (String.◌∷◌ m String.[]) = ("", "")
decode (String.◌∷◌ m (String.◌∷◌ c s)) =
    let (f, rest) = decode s in
    if eqb (code m) b'x' then (String.◌∷◌ c f, rest) else ("", String.◌∷◌ c s)

decode-encode : (s rest : String) → decode (encode s rest) ≡ (s, rest)
unfolding decode encode
decode-encode String.[] String.[] = refl
decode-encode String.[] (String.◌∷◌ c rest) = refl
decode-encode (String.◌∷◌ c s) rest = rw (decode-encode s rest)

unfoldable pub write_claims : Claims → String
unfolding encode
write_claims c =
    let rest = encode c.role (encode c.subscription_id (encode c.plan_type "")) in
    elim c.user_id [ none ↦ String.◌∷◌ end_mark rest | some id ↦ String.◌∷◌ mark (encode id rest) ]

unfoldable pub read_fields : Option String → String → Claims
unfolding decode
read_fields id s =
    let (role, s) = decode s in
    let (sub, s) = decode s in
    let (plan, s) = decode s in
    record { user_id = id; role = role; subscription_id = sub; plan_type = plan }

unfoldable pub read_claims : String → Option Claims
unfolding read_fields decode
read_claims String.[] = none
read_claims (String.◌∷◌ m s) =
    let (id, rest) = decode s in
    some (if eqb (code m) b'x' then read_fields (some id) rest else read_fields none s)

read-write :
    (c : Claims) (o : Option String) → c.user_id ≡ o → read_claims (write_claims c) ≡ some c
unfolding read_claims write_claims read_fields
read-write c none e =
    let h = decode-encode c.role (encode c.subscription_id (encode c.plan_type "")) in
    let h2 = decode-encode c.subscription_id (encode c.plan_type "") in
    let h3 = decode-encode c.plan_type "" in ground (arith, h, h2, h3)
read-write c (some id) e =
    let rest = encode c.role (encode c.subscription_id (encode c.plan_type "")) in
    let h0 = decode-encode id rest in
    let h = decode-encode c.role (encode c.subscription_id (encode c.plan_type "")) in
    let h2 = decode-encode c.subscription_id (encode c.plan_type "") in
    let h3 = decode-encode c.plan_type "" in ground (arith, h0, h, h2, h3)

unfoldable pub unary : ℕ → String
unary zero = ""
unary (suc n) = String.◌∷◌ mark (unary n)

unfoldable pub read_unary : String → Option ℕ
read_unary String.[] = some 0
read_unary (String.◌∷◌ c s) =
    let n = read_unary s in if eqb (code c) b'x' then Option.map suc n else none

read_unary-unary : (n : ℕ) → read_unary (unary n) ≡ some n
unfolding read_unary unary
read_unary-unary zero = refl
read_unary-unary (suc n) = rw (read_unary-unary n)

unfoldable pub crypto : Crypto
unfolding unary read_unary write_claims read_claims
crypto = record {
  generate_from_password = λ p. ok p;
  compare_hash_and_password = λ h p. h == p;
  sign = λ secret c now. ok (write_claims c);
  parse = λ secret token now. read_claims token;
  uuid_string = unary;
  uuid_parse = read_unary;
  new_customer = λ email. ok email;
}

pub crypto_laws : CryptoLaws crypto
unfolding crypto
crypto_laws = record {
  compare_hash = λ p h e. ground (arith, eq_iff h p);
  parse_sign = λ secret token c now e. let r = read-write c c.user_id refl in ground arith;
  sign_works = λ secret c now. (write_claims c, refl);
  parse_uuid = λ id. read_unary-unary id;
}
