-- ===== src/Auth/Planes.antt =====
-- internal/auth/auth.go and middleware.go, internal/config/config.go: how the management plane gets
-- a principal from a request. Addresses and networks are those of Go's `net/netip`, given as
-- parameters; the headers of a request are pairs of a name and a value, and names are compared
-- without case, as Go's canonical form does.
pub mod Identity
use gotifacts.Prelude.{
  ℕ, ◌+◌, Bool, true, false, not, ◌&&◌, ◌||◌, List, [], ◌∷◌, Option, none, some, if◌then◌else◌, any,
  ltb, leb, ◌==◌, length, take, drop,
}
use gotifacts.Text.{Text, codes, text_eq, equal_fold, trim, trim_space, last_index_byte, contains}
use gotifacts.Auth.{Principal, forward_auth_source}

-- http.Request
pub record Request : Type 0 where
  pub remote_addr : Text
  pub headers : List (Text × Text)

-- Header.Get
unfoldable pub get_header : List (Text × Text) → Text → Text
get_header [] name = []
get_header ((n, v) ∷ hs) name = if equal_fold n name then v else get_header hs name

-- Header.Del
unfoldable pub del_header : List (Text × Text) → Text → List (Text × Text)
del_header [] name = []
del_header ((n, v) ∷ hs) name =
    let rest = del_header hs name in if equal_fold n name then rest else (n, v) ∷ rest

-- strings.Count of one byte
unfoldable pub count_byte : Text → ℕ → ℕ
count_byte [] b = 0
count_byte (c ∷ s) b = if c == b then count_byte s b + 1 else count_byte s b

-- splitHostPort, with `none` for a failure; the port is never used
unfoldable pub split_host_port : Text → Option Text
split_host_port hp = elim (last_index_byte hp b':') [
  | none ↦ none
  | some i ↦
      if ltb 1 (count_byte hp b':') && not (contains hp (codes "]")) then none else some (take i hp)
]

-- bearerToken
unfoldable pub bearer_token : List (Text × Text) → Text
bearer_token headers =
    let h = get_header headers (codes "Authorization") in
    if leb (length h) 7 || not (equal_fold (take 7 h) (codes "Bearer "))
    then []
    else trim_space (drop 7 h)

-- The cutset of strings.Trim(host, "[]")
abbrev pub is_bracket : ℕ → Bool
is_bracket c = c == b'[' || c == b']'

-- The fields of config.Config that identify users
pub record Config (Network : Type 0) : Type 0 where
  pub admin_users : List Text
  pub trusted_proxies : List Network
  pub forward_auth_header : Text
  pub mcp_allowed_users : List Text

-- The host of the peer, without its port and its brackets.
unfoldable pub peer_host : Text → Text
peer_host remote = trim is_bracket (elim (split_host_port remote) [ none ↦ remote | some h ↦ h ])

-- Config.IsAdminUser
unfoldable pub is_admin_user : {N : Type 0} → Config N → Text → Bool
is_admin_user cfg user =
    if text_eq user [] then false else any (λ u. equal_fold u user) cfg.admin_users

-- Config.MCPUserAllowed
unfoldable pub mcp_user_allowed : {N : Type 0} → Config N → Text → Bool
mcp_user_allowed cfg user =
    if text_eq user []
    then false
    else any (λ u. equal_fold u user)
        (if length cfg.mcp_allowed_users == 0 then cfg.admin_users else cfg.mcp_allowed_users)

module _ {Addr Network : Type 0} (parse_addr : Text → Option Addr) (unmap : Addr → Addr)
    (within : Network → Addr → Bool) where
  -- Config.TrustsAddr
  unfoldable pub trusts_addr : Config Network → Addr → Bool
  trusts_addr cfg addr = any (λ n. within n (unmap addr)) cfg.trusted_proxies

  -- peerAddr
  unfoldable pub peer_addr : Request → Option Addr
  peer_addr r = elim (parse_addr (peer_host r.remote_addr)) [
    | none ↦ none
    | some a ↦ some (unmap a)
  ]

  -- Whether the direct peer is a trusted proxy: `ok && TrustsAddr(peer)`
  unfoldable pub trusts_peer : Config Network → Request → Bool
  trusts_peer cfg r = elim (peer_addr r) [ none ↦ false | some a ↦ trusts_addr cfg a ]

  -- Authenticator.ForwardAuth
  unfoldable pub forward_auth : Config Network → Request → Option Principal
  forward_auth cfg r =
      if not (trusts_peer cfg r)
      then none
      else let user = trim_space (get_header r.headers cfg.forward_auth_header) in
        if text_eq user []
        then none
        else some (record {
          user = user;
          admin = is_admin_user cfg user;
          grants = [];
          source = forward_auth_source;
          key_id = 0;
        })

  -- StripUntrustedIdentity: the request that the next handler is given
  unfoldable pub strip_untrusted_identity : Config Network → Request → Request
  strip_untrusted_identity cfg r =
      if not (trusts_peer cfg r)
      then record r { headers = del_header r.headers cfg.forward_auth_header }
      else r
