-- ===== src/Auth/Planes/Identity.antt =====
-- internal/auth/auth.go and middleware.go: who a request may claim to be on the management plane.
use gotifacts.Prelude.{
  ◌≡◌, ◌≢◌, ◌↔◌, refl, sym, ap, ◌∙◌, subst, Bool, true, false, List, [], ◌∷◌, Option, none, some,
  Option-cases, arith, if◌then◌else◌, Bool-cases, inl, inr, any, Any, ◌||◌,
}
use gotifacts.Text.{Text, equal_fold, trim_space}
use gotifacts.Text.Equality.{Text-cases, text_eq_of_ne, text_eq_refl}
use gotifacts.Auth.{Principal, forward_auth_source}
use gotifacts.Auth.Planes.{
  Request, get_header, del_header, Config, is_admin_user, trusts_addr, peer_addr, peer_host,
  trusts_peer, forward_auth, strip_untrusted_identity,
}

-- A deleted header is absent.
get_header-del_header :
    (hs : List (Text × Text)) (name : Text) → get_header (del_header hs name) name ≡ []
unfolding get_header del_header
get_header-del_header [] name = refl
get_header-del_header ((n, v) ∷ hs) name = elim (Bool-cases (equal_fold n name)) [
  | inl e ↦ rw e (get_header-del_header hs name)
  | inr e ↦ rw e (rw e (get_header-del_header hs name))
]

or-true : (a b : Bool) → b ≡ true → (a || b) ≡ true
or-true true b h = refl
or-true false b h = h

-- A search finds something exactly when some member satisfies the test.
any_iff : {A : Type 0} (p : A → Bool) (xs : List A) → (any p xs ≡ true) ↔ Any (λ x. p x ≡ true) xs
any_iff p [] = (λ h. absurd (cc h), λ h. absurd h)
any_iff p (x ∷ xs) = (
  λ h. elim (Bool-cases (p x)) [ inl e ↦ inl e | inr e ↦ inr ((any_iff p xs).0 (rw e at h)) ],
  λ h. elim h [ inl e ↦ rw e refl | inr k ↦ or-true (p x) _ ((any_iff p xs).1 k) ],
)

Bool-eq : (a b : Bool) → (a ≡ true) ↔ (b ≡ true) → a ≡ b
Bool-eq true b (f, g) = sym (f refl)
Bool-eq false true (f, g) = g refl
Bool-eq false false (f, g) = refl

-- The user is in the allowlist of administrators, whatever the case of its letters.
abbrev pub IsListed : {N : Type 0} → Config N → Text → Type 0
IsListed cfg user = Any (λ admin. equal_fold admin user ≡ true) cfg.admin_users

is_admin_user_iff :
    {N : Type 0} (cfg : Config N) (user : Text)
    → user ≢ []
    → (is_admin_user cfg user ≡ true) ↔ IsListed cfg user
unfolding is_admin_user
is_admin_user_iff cfg user ne = rw (text_eq_of_ne user [] ne) (any_iff _ cfg.admin_users)

-- The principal that the identity header of a request asserts.
abbrev asserted : {N : Type 0} → Config N → Request → Principal
asserted cfg r = record {
  user = trim_space (get_header r.headers cfg.forward_auth_header);
  admin = is_admin_user cfg (trim_space (get_header r.headers cfg.forward_auth_header));
  grants = [];
  source = forward_auth_source;
  key_id = 0;
}

-- The principal is the user that the identity header names, and an administrator exactly if the
-- allowlist has this user.
pub record IsAsserted {N : Type 0} (cfg : Config N) (r : Request) (p : Principal) : Type 0 where
  pub named : p.user ≡ trim_space (get_header r.headers cfg.forward_auth_header)
  pub given : p.user ≢ []
  pub admin : (p.admin ≡ true) ↔ IsListed cfg p.user
  pub grants : p.grants ≡ []
  pub source : p.source ≡ forward_auth_source
  pub no_key : p.key_id ≡ 0

Principal-eq :
    (p q : Principal)
    → p.user ≡ q.user
    → p.admin ≡ q.admin
    → p.grants ≡ q.grants
    → p.source ≡ q.source
    → p.key_id ≡ q.key_id
    → p ≡ q
Principal-eq p q a b c d e =
    λ i. record { user = a i; admin = b i; grants = c i; source = d i; key_id = e i }

asserted-IsAsserted :
    {N : Type 0} (cfg : Config N) (r : Request)
    → trim_space (get_header r.headers cfg.forward_auth_header) ≢ []
    → IsAsserted cfg r (asserted cfg r)
asserted-IsAsserted cfg r ne = record {
  named = refl;
  given = ne;
  admin = is_admin_user_iff cfg _ ne;
  grants = refl;
  source = refl;
  no_key = refl;
}

IsAsserted-eq :
    {N : Type 0} (cfg : Config N) (r : Request) (p : Principal)
    → IsAsserted cfg r p
    → p ≡ asserted cfg r
IsAsserted-eq cfg r p a =
    let user = trim_space (get_header r.headers cfg.forward_auth_header) in
    let (to_list, from_list) = is_admin_user_iff cfg p.user a.given in
    let (listed, privileged) = a.admin in
    let admin : p.admin ≡ is_admin_user cfg p.user =
      Bool-eq p.admin _ (λ h. from_list (listed h), λ h. privileged (to_list h)) in
    Principal-eq p (asserted cfg r) a.named (admin ∙ ap (is_admin_user cfg) a.named) a.grants
      a.source a.no_key

module _ {Addr Network : Type 0} (parse_addr : Text → Option Addr) (unmap : Addr → Addr)
    (within : Network → Addr → Bool) where
  -- The host of the peer is an address, which one of the trusted networks holds. The address is
  -- unmapped twice, by peerAddr and by TrustsAddr.
  pub record IsTrusted (cfg : Config Network) (r : Request) : Type 0 where
    pub addr : Addr
    pub parsed : parse_addr (peer_host r.remote_addr) ≡ some addr
    pub held : Any (λ n. within n (unmap (unmap addr)) ≡ true) cfg.trusted_proxies

  trusted :
      (cfg : Config Network) (r : Request)
      → trusts_peer parse_addr unmap within cfg r ≡ true
      → IsTrusted cfg r
  unfolding trusts_peer peer_addr trusts_addr
  trusted cfg r h = elim (Option-cases (parse_addr (peer_host r.remote_addr))) [
    | inl e ↦ absurd (cc (rw (trusts_peer, peer_addr, e) at h))
    | inr (a, e) ↦ record {
      addr = a;
      parsed = e;
      held = (any_iff _ cfg.trusted_proxies).0 (rw (trusts_peer, peer_addr, e, trusts_addr) at h);
    }
  ]

  trusted_back :
      (cfg : Config Network) (r : Request)
      → IsTrusted cfg r
      → trusts_peer parse_addr unmap within cfg r ≡ true
  unfolding trusts_peer peer_addr trusts_addr
  trusted_back cfg r t =
      rw (trusts_peer, peer_addr, t.parsed, trusts_addr) ((any_iff _ cfg.trusted_proxies).1 t.held)

  -- ForwardAuth gives a request a principal exactly when the host of its direct peer is an address
  -- within a trusted network and its identity header is not blank; it is the user of that header,
  -- without grants, and an administrator exactly if the allowlist has the user, in whatever case.
  pub forward_auth_iff :
      (cfg : Config Network) (r : Request) (p : Principal)
      → (forward_auth parse_addr unmap within cfg r ≡ some p)
        ↔ (IsTrusted cfg r × IsAsserted cfg r p)
  unfolding forward_auth
  forward_auth_iff cfg r p = (forth, back)
    where
      user : Text
      user = trim_space (get_header r.headers cfg.forward_auth_header)

      given : {q : Principal} → ◌≡◌ {A = Option Principal} (some q) (some p) → q ≡ p
      given h = cc

      forth :
          forward_auth parse_addr unmap within cfg r ≡ some p → IsTrusted cfg r × IsAsserted cfg r p
      forth h = elim (Bool-cases (trusts_peer parse_addr unmap within cfg r)) [
        | inr e ↦ absurd (ground arith)
        | inl e ↦ elim (Text-cases user []) [
          | inl b ↦ absurd (cc (rw (e, b, text_eq_refl []) at h))
          | inr b ↦
              let same : asserted cfg r ≡ p = given (rw (e, text_eq_of_ne user [] b) at h) in
              (trusted cfg r e, subst (IsAsserted cfg r) same (asserted-IsAsserted cfg r b))
        ]
      ]

      back :
          IsTrusted cfg r × IsAsserted cfg r p → forward_auth parse_addr unmap within cfg r ≡ some p
      back (t, a) =
          let known : user ≢ [] = subst (λ u. u ≢ []) a.named a.given in
          rw (trusted_back cfg r t, text_eq_of_ne user [] known)
            (ap some (sym (IsAsserted-eq cfg r p a)))

  same_peer :
      (cfg : Config Network) (r : Request) (hs : List (Text × Text))
      → trusts_peer parse_addr unmap within cfg (record r { headers = hs })
        ≡ trusts_peer parse_addr unmap within cfg r
  unfolding trusts_peer peer_addr
  same_peer cfg r hs = refl

  rejected :
      (cfg : Config Network) (r : Request)
      → trusts_peer parse_addr unmap within cfg r ≡ false
      → forward_auth parse_addr unmap within cfg r ≡ none
  unfolding forward_auth
  rejected cfg r h = rw (forward_auth, h) refl

  stripped :
      (cfg : Config Network) (r : Request)
      → trusts_peer parse_addr unmap within cfg r ≡ false
      → strip_untrusted_identity parse_addr unmap within cfg r
        ≡ record r { headers = del_header r.headers cfg.forward_auth_header }
  unfolding strip_untrusted_identity
  stripped cfg r h = rw (strip_untrusted_identity, h) refl

  untouched :
      (cfg : Config Network) (r : Request)
      → trusts_peer parse_addr unmap within cfg r ≡ true
      → strip_untrusted_identity parse_addr unmap within cfg r ≡ r
  unfolding strip_untrusted_identity
  untouched cfg r h = rw (strip_untrusted_identity, h) refl

  -- StripUntrustedIdentity leaves the identity header only with a request that a trusted proxy has
  -- sent, and never changes the principal that ForwardAuth gives.
  pub strip_untrusted_identity_lem :
      (cfg : Config Network) (r : Request)
      → (get_header
            (strip_untrusted_identity parse_addr unmap within cfg r).headers
            cfg.forward_auth_header
          ≡ (if trusts_peer parse_addr unmap within cfg r
              then get_header r.headers cfg.forward_auth_header
              else []))
        × (forward_auth parse_addr unmap within cfg
              (strip_untrusted_identity parse_addr unmap within cfg r)
            ≡ forward_auth parse_addr unmap within cfg r)
  strip_untrusted_identity_lem cfg r =
      elim (Bool-cases (trusts_peer parse_addr unmap within cfg r)) [
        | inl e ↦ rw (untouched cfg r e, e) (refl, refl)
        | inr e ↦
            let bare = record r { headers = del_header r.headers cfg.forward_auth_header } in
            rw (stripped cfg r e, e)
              (
                get_header-del_header r.headers cfg.forward_auth_header,
                rejected cfg bare (same_peer cfg r bare.headers ∙ e) ∙ sym (rejected cfg r e),
              )
      ]
