-- ===== src/Network/ScopeLaws.antt =====
-- src/authz/url-scope.ts: which URLs lie in the scope of a target.
use shld.Prelude.{ℕ, ◌≡◌, refl, ◌↔◌, ◌⊎◌, inl, inr, Bool, true, false, not, ◌&&◌, some, List, arith}
use shld.Prelude.Text.{codes, text_eq, text_eq_iff}
use shld.Action.{Result, ok, err}
use shld.Network.Scope.{
  Url, TargetScope, port_of, matches_authority, refuse_if, refuse_when, is_excluded, is_outside,
  assert_parsed,
}

-- the URL has the scheme, the host and the port of the target, is one of the web, and its path is
-- allowed and not excluded
pub record LiesWithin (method : List ℕ) (target : TargetScope) (url base : Url) : Type 0 where
  pub web :
      (text_eq url.protocol (codes "http:") ≡ true) ⊎ (text_eq url.protocol (codes "https:") ≡ true)
  pub same_protocol : url.protocol ≡ base.protocol
  pub same_hostname : url.hostname ≡ base.hostname
  pub same_port : port_of url ≡ port_of base
  pub not_excluded : is_excluded target.excluded_paths method url.pathname ≡ ok false
  pub not_outside : is_outside target.allowed_paths method url.pathname ≡ ok false

refuse_if-ok :
    (b : Bool) (later : Result (Unit {0}))
    → refuse_if b later ≡ ok tt
    → (b ≡ false) × (later ≡ ok tt)
refuse_if-ok true later h = cc
refuse_if-ok false later h = (refl, h)

refuse_when-ok :
    (r : Result Bool) (later : Result (Unit {0}))
    → refuse_when r later ≡ ok tt
    → (r ≡ ok false) × (later ≡ ok tt)
refuse_when-ok (ok true) later h = cc
refuse_when-ok (ok false) later h = (refl, h)
refuse_when-ok (err e) later h = cc

matches_authority-eq :
    (url base : Url)
    → matches_authority url base ≡ true
    → (url.protocol ≡ base.protocol) × (url.hostname ≡ base.hostname) × (port_of url ≡ port_of base)
unfolding matches_authority
matches_authority-eq url base h = ground (
  arith,
  text_eq_iff url.protocol base.protocol,
  text_eq_iff url.hostname base.hostname,
  text_eq_iff (port_of url) (port_of base),
)

eq-matches_authority :
    (url base : Url)
    → url.protocol ≡ base.protocol
    → url.hostname ≡ base.hostname
    → port_of url ≡ port_of base
    → matches_authority url base ≡ true
unfolding matches_authority
eq-matches_authority url base p h q = rw (
  (text_eq_iff url.protocol base.protocol).1 p,
  (text_eq_iff url.hostname base.hostname).1 h,
  (text_eq_iff (port_of url) (port_of base)).1 q,
)

negated-both : (a b : Bool) → (not a && not b) ≡ false → (a ≡ true) ⊎ (b ≡ true)
negated-both true b h = inl refl
negated-both false true h = inr refl
negated-both false false h = cc

not-false : (b : Bool) → not b ≡ false → b ≡ true
not-false b h = ground arith

both-negated : (a b : Bool) → (a ≡ true) ⊎ (b ≡ true) → (not a && not b) ≡ false
both-negated true b h = refl
both-negated false b (inl h) = cc
both-negated false b (inr h) = rw h

false-not : {b : Bool} → b ≡ true → not b ≡ false
false-not h = rw h

pass_if :
    {b : Bool} {later : Result (Unit {0})} → b ≡ false → later ≡ ok tt → refuse_if b later ≡ ok tt
pass_if h k = rw (h, k)

pass_when :
    {r : Result Bool} {later : Result (Unit {0})}
    → r ≡ ok false
    → later ≡ ok tt
    → refuse_when r later ≡ ok tt
pass_when h k = rw (h, k)

module _ (method : List ℕ) (target : TargetScope) (url base : Url) where
  pub assert_parsed-LiesWithin :
      assert_parsed method target (some url) (some base) ≡ ok tt → LiesWithin method target url base
  unfolding assert_parsed
  assert_parsed-LiesWithin h =
      let (web, a) = refuse_if-ok _ _ h in
      let (authority, b) = refuse_if-ok _ _ a in
      let (excluded, c) = refuse_when-ok _ _ b in
      let (outside, d) = refuse_when-ok _ _ c in
      let (p, n, q) = matches_authority-eq url base (not-false _ authority) in
      record {
        web = negated-both _ _ web;
        same_protocol = p;
        same_hostname = n;
        same_port = q;
        not_excluded = excluded;
        not_outside = outside;
      }

  LiesWithin-assert_parsed :
      LiesWithin method target url base → assert_parsed method target (some url) (some base) ≡ ok tt
  unfolding assert_parsed
  LiesWithin-assert_parsed w = pass_if (both-negated _ _ w.web) (
      pass_if
        (false-not (eq-matches_authority url base w.same_protocol w.same_hostname w.same_port))
        (pass_when w.not_excluded (pass_when w.not_outside refl)))

  -- A URL is admitted exactly if it lies within the target's scope.
  pub assert_parsed_iff :
      (assert_parsed method target (some url) (some base) ≡ ok tt)
      ↔ LiesWithin method target url base
  assert_parsed_iff = (assert_parsed-LiesWithin, LiesWithin-assert_parsed)
