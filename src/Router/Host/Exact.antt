-- ===== src/Router/Host/Exact.antt =====
-- internal/router/sitepath.go: the hosts under a base domain and the site paths they stand for.
use gotifacts.Prelude.{
  ℕ, ◌≡◌, ◌≢◌, ◌↔◌, inl, inr, refl, sym, ap, ◌∙◌, subst, [], ◌∷◌, ◌++◌, append_assoc, ok,
}
use gotifacts.Text.{Text, to_lower, split, join, joined}
use gotifacts.Text.Equality.{to_lower_of_IsLower}
use gotifacts.Text.Split.{Lacks, split-append-any, split_of_Lacks}
use gotifacts.Router.Label.Bytes.{IsLabel-Lacks_dot}
use gotifacts.Router.SitePath.{SitePath, IsValid}
use gotifacts.Router.SitePath.Segments.{SitePath-eq}
use gotifacts.Router.SitePath.Validation.{IsValid→validate}
use gotifacts.Router.Host.{normalize_host, site_path_of_labels, parse_host}
use gotifacts.Router.Host.Normal.{IsDomain, IsPlainHost, normalize_host_of_IsPlainHost}
use gotifacts.Router.Host.Sent.{IsSent, parse_host_of_IsSent}
use gotifacts.Router.Host.RoundTrip.{
  host_labels-append, site_path_of_labels-concat, parse_host-host,
}
use gotifacts.Router.Host.Soundness.{LeadsTo, parse_host→LeadsTo}

split_empty_label :
    (slug : Text) → Lacks b'.' slug → split b'.' (slug ++ b'.' ∷ []) ≡ slug ∷ [] ∷ []
split_empty_label slug h = rw (split-append-any, split_of_Lacks b'.' slug h) (unfold split in refl)

concat-ne-nil : (x : Text) (c : ℕ) → x ++ c ∷ [] ≢ []
concat-ne-nil [] c h = cc
concat-ne-nil (d ∷ x) c h = cc

-- A site outside every group also answers with an empty label before the base.
parse_host-empty_label :
    (s : SitePath) (base h : Text)
    → IsValid s
    → s.group ≡ []
    → normalize_host h ≡ s.slug ++ b'.' ∷ b'.' ∷ to_lower base
    → parse_host h base ≡ ok s
unfolding parse_host
parse_host-empty_label s base h v flat e =
    let normal = e ∙ sym (append_assoc s.slug (b'.' ∷ []) (b'.' ∷ to_lower base)) in
    let labels =
      host_labels-append h (s.slug ++ b'.' ∷ []) base normal (concat-ne-nil s.slug b'.')
      ∙ ap ok (split_empty_label s.slug (IsLabel-Lacks_dot s.slug v.slug_label)) in
    let built : site_path_of_labels (s.slug ∷ [] ∷ []) ≡ s =
      site_path_of_labels-concat (s.slug ∷ [] ∷ []) ([] ∷ []) s.slug refl
      ∙ SitePath-eq _ s (unfold join joined in sym flat) refl in
    rw (labels, built, IsValid→validate s v) refl

parse_plain_host_iff :
    (h base : Text) (sp : SitePath)
    → IsDomain base
    → IsPlainHost h
    → Lacks b'/' h
    → (parse_host h base ≡ ok sp) ↔ (IsValid sp × LeadsTo h sp base)
parse_plain_host_iff h base sp d p lacks =
    let n = normalize_host_of_IsPlainHost h p in
    let b = to_lower_of_IsLower base d.plain.lower in
    (
      λ e.
          subst (λ (u : Text). IsValid sp × LeadsTo h sp u) b
            (subst (λ (u : Text). IsValid sp × LeadsTo u sp (to_lower base)) n
              (parse_host→LeadsTo h base sp (subst (Lacks b'/') (sym n) lacks) e)),
      λ k. elim k.1 [
        | inl own ↦ ap (λ u. parse_host u base) own ∙ parse_host-host sp k.0 base d
        | inr (flat, e) ↦
            parse_host-empty_label sp base h k.0 flat
              (n ∙ e ∙ ap (λ u. sp.slug ++ b'.' ∷ b'.' ∷ u) (sym b))
      ],
    )

-- Under a base domain that is in plain form, a host sent for a plain one with no slash – in
-- whatever case, with or without an end dot and a port of digits, and with white space around it –
-- parses to a site path exactly when the path is valid and the plain host is the path's own, or
-- the path is in no group and the plain host is its own with an empty label before the base. Plain
-- is lower case with no white space, colon or end dot.
pub parse_host_iff :
    (sent h base : Text) (sp : SitePath)
    → IsDomain base
    → IsPlainHost h
    → IsSent sent h
    → Lacks b'/' h
    → (parse_host sent base ≡ ok sp) ↔ (IsValid sp × LeadsTo h sp base)
parse_host_iff sent h base sp d p s lacks =
    rw (parse_host_of_IsSent sent h base p s) (parse_plain_host_iff h base sp d p lacks)
