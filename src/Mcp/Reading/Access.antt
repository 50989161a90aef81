-- ===== src/Mcp/Reading/Access.antt =====
-- internal/mcpserver/read.go: whom the tools let read a site, and that a refusal tells nothing else.
use gotifacts.Prelude.{
  ◌≡◌, ◌≢◌, refl, sym, ◌∙◌, true, false, [], ◌⊎◌, inl, inr, Bool-cases, Result-cases, some, ok, err,
  Result, if◌then◌else◌,
}
use gotifacts.Text.{Text, text_eq, trim_space}
use gotifacts.Text.Equality.{text_eq_of_ne}
use gotifacts.Keys.{cap_read}
use gotifacts.Auth.{Principal, can}
use gotifacts.Router.SitePath.{SitePath, PathError, new_site_path}
use gotifacts.Store.Site.{Site}
use gotifacts.Store.Sites.{get_site}
use gotifacts.Files.{is_dir}
use gotifacts.Ingest.{Published, revision_not_found, sites_dir, content_path}
use gotifacts.Ingest.Versions.{revision_dir, current_revision}
use gotifacts.Mcp.Reading.{
  ReadError, not_readable, ReadTarget, target_group, dir_error, locate, authorize_as,
  authorize_read,
}

-- A principal may read what has this group and slug, which name a site that is registered, not
-- deleted, and has content.
pub record IsReadable (p : Published) (who : Principal) (group slug : Text) (sp : SitePath)
    : Type 0 where
  pub permitted : can who cap_read group slug ≡ true
  pub named : new_site_path group slug ≡ ok sp
  pub row : Site
  pub listed : get_site p.sites sp.group sp.slug ≡ ok row
  pub present : is_dir p.disk (content_path sites_dir sp) ≡ true

current_dir :
    (p : Published) (sp : SitePath)
    → revision_dir p.disk sp current_revision ≡ (
        if is_dir p.disk (content_path sites_dir sp)
        then ok (content_path sites_dir sp)
        else err revision_not_found)
unfolding revision_dir text_eq
current_dir p sp = refl

module _ (p : Published) (who : Principal) (group slug : Text) where
  abbrev pub target : SitePath → ReadTarget
  target sp = record { group = group; slug = slug; dir = content_path sites_dir sp }

  abbrev pub Decided : Result ReadError ReadTarget → Type 0
  Decided r =
      ((sp : SitePath) × IsReadable p who group slug sp × (r ≡ ok (target sp)))
      ⊎ ((sp : SitePath) → ¬ IsReadable p who group slug sp) × (r ≡ err (not_readable group slug))

  same_site : (sp sp' : SitePath) → ◌≡◌ {A = Result PathError SitePath} (ok sp) (ok sp') → sp ≡ sp'
  same_site sp sp' e = cc

  locate-Decided : can who cap_read group slug ≡ true → Decided (locate p group slug)
  unfolding locate dir_error
  locate-Decided may = elim (Result-cases (new_site_path group slug)) [
    | inl (e, h) ↦ rw (h, locate) (inr ((λ sp r. cc (r.named, h)), refl))
    | inr (sp, h) ↦ elim (Result-cases (get_site p.sites sp.group sp.slug)) [
      | inl (e, k) ↦
          rw (h, locate, k)
            (inr (
              (λ sp' r. let s = same_site sp' sp (sym r.named ∙ h) in absurd (cc (r.listed, s, k))),
              refl,
            ))
      | inr (row, k) ↦ elim (Bool-cases (is_dir p.disk (content_path sites_dir sp))) [
        | inl d ↦
            rw (h, locate, k, current_dir p sp, d)
              (inl (
                sp,
                record { permitted = may; named = h; row = row; listed = k; present = d },
                refl,
              ))
        | inr d ↦
            rw (h, locate, k, current_dir p sp, d)
              (inr (
                (λ sp' r.
                    let s = same_site sp' sp (sym r.named ∙ h) in absurd (cc (r.present, s, d))),
                refl,
              ))
      ]
    ]
  ]

-- For a call with a slug, the answer is the directory of the live content of the site that the group
-- and slug name, if the caller's rights to read hold for the group and slug as the call spells them,
-- and the site is registered, not deleted and has content; in every other case the answer is the
-- same error, whatever the cause.
pub authorize_read_uniform :
    (p : Published) (mcp_group : Text) (who : Principal) (group_in slug_in : Text)
    → trim_space slug_in ≢ []
    → Decided p who
        (target_group mcp_group group_in)
        (trim_space slug_in)
        (authorize_read p mcp_group (some who) group_in slug_in)
unfolding authorize_read authorize_as
authorize_read_uniform p mcp_group who group_in slug_in ne =
    let group = target_group mcp_group group_in in
    let slug = trim_space slug_in in
    let blank : text_eq slug [] ≡ false = text_eq_of_ne slug [] ne in
    elim (Bool-cases (can who cap_read group slug)) [
      | inl may ↦ rw (blank, may) (locate-Decided p who group slug may)
      | inr denied ↦ rw (blank, denied) (inr ((λ sp r. cc (r.permitted, denied)), refl))
    ]

-- A directory to read, and the site that its content belongs to, which is registered and not
-- deleted, and which the reader may read.
pub record IsEntitled (p : Published) (who : Principal) (r : ReadTarget) : Type 0 where
  pub site : SitePath
  pub named : new_site_path r.group r.slug ≡ ok site
  pub permitted : can who cap_read site.group site.slug ≡ true
  pub row : Site
  pub listed : get_site p.sites site.group site.slug ≡ ok row
  pub live : r.dir ≡ content_path sites_dir site
