-- ===== src/Github/Signature.antt =====
-- src/auth/github-webhook.ts and src/webhooks/sign-payload.ts. The keyed hash of node:crypto, in
-- hexadecimal, is a parameter.
use shld.Prelude.{
  ◌∙◌, ap, ◌≡◌, ◌↔◌, refl, sym, arith, ==_iff, ℕ, Bool, true, false, ◌&&◌, Option, none, some, List,
  [], ◌∷◌, ◌++◌, length, ◌==◌,
}
use shld.Prelude.Text.{codes, starts_with, text_eq, text_eq_iff}
use shld.Network.Guard.{drop_text}

abbrev pub scheme : List ℕ
scheme = codes "sha256="

-- `hmac` is given the secret and the body
unfoldable pub verify_github_webhook_signature :
    (List ℕ → List ℕ → List ℕ) → List ℕ → Option (List ℕ) → List ℕ → Bool
unfolding starts_with text_eq
verify_github_webhook_signature hmac raw_body none secret = false
verify_github_webhook_signature hmac raw_body (some header) secret =
    let expected = hmac secret raw_body in
    let got = drop_text scheme header in
    starts_with header scheme && length expected == length got && text_eq expected got

unfoldable pub sign_webhook_payload : (List ℕ → List ℕ → List ℕ) → List ℕ → List ℕ → List ℕ
sign_webhook_payload hmac payload secret = scheme ++ hmac secret payload

unfoldable pub verify_webhook_signature :
    (List ℕ → List ℕ → List ℕ) → List ℕ → List ℕ → List ℕ → Bool
unfolding starts_with text_eq sign_webhook_payload
verify_webhook_signature hmac payload header secret =
    let expected = sign_webhook_payload hmac payload secret in
    starts_with header scheme && length expected == length header && text_eq expected header

first-true : (a b c : Bool) → (a && b && c) ≡ true → a ≡ true
first-true a b c h = ground arith

last-true : (a b c : Bool) → (a && b && c) ≡ true → c ≡ true
last-true a b c h = ground arith

all-true : {a b c : Bool} → a ≡ true → b ≡ true → c ≡ true → (a && b && c) ≡ true
all-true p q r = rw (p, q, r)

starts_with-append : (p rest : List ℕ) → starts_with (p ++ rest) p ≡ true
unfolding starts_with
starts_with-append [] [] = refl
starts_with-append [] (c ∷ rest) = refl
starts_with-append (c ∷ p) rest = rw ((==_iff c c).1 refl, starts_with-append p rest)

append-drop_text : (p cs : List ℕ) → starts_with cs p ≡ true → cs ≡ p ++ drop_text p cs
unfolding starts_with
append-drop_text [] cs h = refl
append-drop_text (c ∷ p) [] h = cc
append-drop_text (c ∷ p) (d ∷ cs) h = ground (arith, append-drop_text p cs)

module _ (hmac : List ℕ → List ℕ → List ℕ) where
  -- A webhook's signature is accepted exactly if it is the one that the payload is sent with.
  pub verify_webhook_signature-sign :
      (payload header secret : List ℕ)
      → (verify_webhook_signature hmac payload header secret ≡ true)
        ↔ (header ≡ sign_webhook_payload hmac payload secret)
  unfolding verify_webhook_signature sign_webhook_payload
  verify_webhook_signature-sign payload header secret = (
    λ h. sym (
        (text_eq_iff (sign_webhook_payload hmac payload secret) header).0 (
          last-true (starts_with header scheme)
            (length (sign_webhook_payload hmac payload secret) == length header) _ h)),
    λ e. rw e (
        all-true (starts_with-append scheme (hmac secret payload))
          ((==_iff (length (sign_webhook_payload hmac payload secret)) _).1 refl)
          ((text_eq_iff (sign_webhook_payload hmac payload secret) _).1 refl)),
  )

  pub verify_github_webhook_signature-sign :
      (raw_body header secret : List ℕ)
      → verify_github_webhook_signature hmac raw_body (some header) secret ≡ true
      → header ≡ scheme ++ hmac secret raw_body
  unfolding verify_github_webhook_signature
  verify_github_webhook_signature-sign raw_body header secret h =
      append-drop_text scheme header (
        first-true (starts_with header scheme)
          (length (hmac secret raw_body) == length (drop_text scheme header)) _ h)
      ∙ ap (λ x. scheme ++ x)
          (sym (
            (text_eq_iff (hmac secret raw_body) (drop_text scheme header)).0 (
              last-true (starts_with header scheme)
                (length (hmac secret raw_body) == length (drop_text scheme header)) _ h)))
