-- ===== src/Router/Host/Normal.antt =====
-- internal/router/sitepath.go: the hosts that `normalizeHost` leaves as they are.
use gotifacts.Prelude.{
  ℕ, ◌≡◌, ◌≢◌, refl, ◌∙◌, subst, false, [], ◌∷◌, ◌++◌, reverse, arith, All, All-append, All-reverse,
  All-imp, append_assoc,
}
use gotifacts.Text.{Text, codes, is_space, lower_byte, has_suffix, trim_suffix, join}
use gotifacts.Text.Equality.{IsLower, to_lower_of_IsLower}
use gotifacts.Text.Split.{Lacks}
use gotifacts.Text.Trim.{Keeps, trim_space_of_Keeps}
use gotifacts.Text.Bytes.{All-join, has_suffix_last, last_index_byte_of_Lacks}
use gotifacts.Router.Label.Bytes.{IsLabel-IsLower, IsLabel-Keeps_space, IsLabel-Lacks_colon}
use gotifacts.Router.Label.{IsLabel}
use gotifacts.Router.SitePath.{SitePath, IsValid, group_segments, host}
use gotifacts.Router.SitePath.Segments.{join-concat}
use gotifacts.Router.Host.{strip_port, normalize_host}

-- A host as a client that names no port sends it: lower case, no white space, no closing dot.
pub record IsPlainHost (h : Text) : Type 0 where
  pub lower : IsLower h
  pub no_space : Keeps is_space h
  pub no_colon : Lacks b':' h
  pub no_end_dot : has_suffix h (codes ".") ≡ false

pub strip_port_of_Lacks : (h : Text) → Lacks b':' h → strip_port h ≡ h
unfolding strip_port
strip_port_of_Lacks h k = rw (last_index_byte_of_Lacks b':' h k, strip_port)

pub trim_suffix_of_false : (h t : Text) → has_suffix h t ≡ false → trim_suffix h t ≡ h
unfolding trim_suffix
trim_suffix_of_false h t e = rw e

pub normalize_host_of_IsPlainHost : (h : Text) → IsPlainHost h → normalize_host h ≡ h
unfolding normalize_host
normalize_host_of_IsPlainHost h p =
    rw
      (
        trim_space_of_Keeps h p.no_space,
        to_lower_of_IsLower h p.lower,
        strip_port_of_Lacks h p.no_colon,
      )
      (trim_suffix_of_false h (codes ".") p.no_end_dot)

-- A base domain as the configuration holds it.
pub record IsDomain (base : Text) : Type 0 where
  pub plain : IsPlainHost base
  pub nonempty : base ≢ []

-- The labels before the base, joined.
abbrev pub host_prefix : SitePath → Text
host_prefix s = join b'.' (s.slug ∷ reverse (group_segments s))

pub host-eq-append : (s : SitePath) (base : Text) → host s base ≡ host_prefix s ++ b'.' ∷ base
unfolding host
host-eq-append s base = join-concat b'.' s.slug (reverse (group_segments s)) base

module _ (s : SitePath) (v : IsValid s) where
  pub labels_of_host : All IsLabel (s.slug ∷ reverse (group_segments s))
  labels_of_host = (v.slug_label, All-reverse IsLabel (group_segments s) v.group_labels)

module _ {κ} (P : ℕ → Type κ) (s : SitePath) (v : IsValid s) where
  All-host_prefix : P b'.' → ((l : Text) → IsLabel l → All P l) → All P (host_prefix s)
  All-host_prefix dot each =
      All-join P b'.' (s.slug ∷ reverse (group_segments s)) dot
        (All-imp each (s.slug ∷ reverse (group_segments s)) (labels_of_host s v))

dot-IsLower : IsLower (codes ".")
unfolding lower_byte
dot-IsLower = (refl, tt)

dot-Keeps_space : Keeps is_space (codes ".")
unfolding is_space
dot-Keeps_space = (refl, tt)

dot-Lacks_colon : Lacks b':' (codes ".")
dot-Lacks_colon = omega arith

no_end_dot-append :
    (x base : Text)
    → base ≢ []
    → has_suffix base (codes ".") ≡ false
    → has_suffix (x ++ b'.' ∷ base) (codes ".") ≡ false
no_end_dot-append x base ne h =
    subst (λ u. has_suffix u (codes ".") ≡ false) (append_assoc x (codes ".") base)
      (has_suffix_last b'.' (x ++ codes ".") base ne ∙ h)

-- The host of a valid site path is in the form that `normalizeHost` keeps.
pub host-IsPlainHost :
    (s : SitePath) (base : Text) → IsValid s → IsDomain base → IsPlainHost (host s base)
host-IsPlainHost s base v d =
    let p = d.plain in
    rw host-eq-append (record {
      lower =
          All-append _ _ _ (All-host_prefix _ s v dot-IsLower.0 IsLabel-IsLower)
            (dot-IsLower.0, p.lower);
      no_space =
          All-append _ _ _ (All-host_prefix _ s v dot-Keeps_space.0 IsLabel-Keeps_space)
            (dot-Keeps_space.0, p.no_space);
      no_colon =
          All-append _ _ _ (All-host_prefix _ s v dot-Lacks_colon.0 IsLabel-Lacks_colon)
            (dot-Lacks_colon.0, p.no_colon);
      no_end_dot = no_end_dot-append (host_prefix s) base d.nonempty p.no_end_dot;
    })
