-- ===== src/Mcp/Tools/Authority.antt =====
-- internal/mcpserver/mcpserver.go: a tool changes a site only for a caller who holds the capability
-- for it, and destroys one only with a confirmation, when the client can be asked for it.
mod Consent
mod Outcomes
use gotifacts.Prelude.{ℕ, ◌≡◌, refl, Bool, true, ◌⊎◌, inl, inr, Option, some, All}
use gotifacts.Text.{Text}
use gotifacts.Auth.{Principal, can}
use gotifacts.Auth.Spelling.{IsChecked, can-built}
use gotifacts.Archive.{Limits}
use gotifacts.Router.SitePath.{SitePath, IsValid}
use gotifacts.Files.{FilePath, Disk}
use gotifacts.Ingest.{Settings, Published}
use gotifacts.Ingest.Isolation.{Tree}
use gotifacts.Mcp.Tools.{
  ToolCall, call_publish, call_unpublish, call_restore, call_list_revisions, call_update,
  call_rollback, call_purge, run_tool,
}
pub use Consent.{IsAllowed}
pub use Outcomes.{Untouched}
use Consent.{HasDraw, need, group_of, slug_of}
use Outcomes.{
  unpublish-Outcome, restore-Outcome, revisions-Outcome, update-Outcome, rollback-Outcome,
  purge-Outcome, publish-Outcome,
}

module _ (mac : Text → Text) (format_int : ℕ → Text) (parse_int : Text → Option ℕ)
    (mcp_group : Text) (now : ℕ) where
  -- The call is allowed, and its caller holds the capability for the site that it names.
  abbrev pub IsEntitled : Option Principal → ToolCall → SitePath → Type 0
  IsEntitled who call t =
      (a : IsAllowed mac format_int parse_int mcp_group now who call t) × (can a.caller (need call)
          t.group t.slug
        ≡ true)

module _ (stamp date_text : ℕ → Text) (detect_favicon : Disk → FilePath → Text × Text)
    (refuses : Text → Bool) (cfg : Settings) (lim : Limits) (base : Text)
    (decode_base64 : Text → Option Text) (mac : Text → Text) (format_int : ℕ → Text)
    (parse_int : Text → Option ℕ) (mcp_group : Text) (max_upload : ℕ) (p : Published) (now : ℕ)
    (t : SitePath) (w : IsValid t) (tree : Tree) (r : FilePath) where
  -- After a call of a tool, a path in the content, the versions or the quarantine of a valid site,
  -- and the row of the site, are as they were, or else the call names this site and its caller may
  -- use the tool on the group and slug as the call spells them; a purge then also has the consent
  -- of a client that can be asked: accepted, with the unexpired token for this caller and site.
  run_tool-IsAllowed :
      (who : Option Principal) (call : ToolCall)
      → HasDraw call
      → IsAllowed mac format_int parse_int mcp_group now who call t
        ⊎ Untouched stamp date_text detect_favicon refuses cfg lim base decode_base64 mac format_int
            parse_int mcp_group max_upload p now t w tree r
            (run_tool stamp date_text detect_favicon refuses cfg lim base decode_base64 mac
              format_int parse_int mcp_group max_upload p now who call).0
  run_tool-IsAllowed who (call_publish input drawn) d =
      publish-Outcome stamp date_text detect_favicon refuses cfg lim base decode_base64 mac
        format_int parse_int mcp_group max_upload p now t w tree r who input drawn d who refl
  run_tool-IsAllowed who (call_unpublish g s) d =
      unpublish-Outcome stamp date_text detect_favicon refuses cfg lim base decode_base64 mac
        format_int parse_int mcp_group max_upload p now t w tree r who g s
  run_tool-IsAllowed who (call_restore g s) d =
      restore-Outcome stamp date_text detect_favicon refuses cfg lim base decode_base64 mac
        format_int parse_int mcp_group max_upload p now t w tree r who g s
  run_tool-IsAllowed who (call_list_revisions g s) d =
      revisions-Outcome stamp date_text detect_favicon refuses cfg lim base decode_base64 mac
        format_int parse_int mcp_group max_upload p now t w tree r who g s
  run_tool-IsAllowed who (call_update g s input) d =
      update-Outcome stamp date_text detect_favicon refuses cfg lim base decode_base64 mac
        format_int parse_int mcp_group max_upload p now t w tree r who g s input
  run_tool-IsAllowed who (call_rollback g s rev drawn) d =
      rollback-Outcome stamp date_text detect_favicon refuses cfg lim base decode_base64 mac
        format_int parse_int mcp_group max_upload p now t w tree r who g s rev drawn
  run_tool-IsAllowed who (call_purge g s c) d =
      purge-Outcome stamp date_text detect_favicon refuses cfg lim base decode_base64 mac format_int
        parse_int mcp_group max_upload p now t w tree r who g s c

  -- When the targets of the caller's grants are labels with slashes between them, or empty for a
  -- group, then after a call of a tool a path in the content, the versions or the quarantine of a
  -- valid site, and the row of the site, are as they were, or else the call names this site and its
  -- caller holds the capability of the tool for it, as well as for the group and slug as the call
  -- spells them; a purge then also has the consent of a client that can be asked: accepted, with the
  -- unexpired token for this caller and site.
  pub run_tool-IsEntitled :
      (who : Option Principal) (call : ToolCall)
      → HasDraw call
      → ((caller : Principal) → who ≡ some caller → All IsChecked caller.grants)
      → IsEntitled mac format_int parse_int mcp_group now who call t
        ⊎ Untouched stamp date_text detect_favicon refuses cfg lim base decode_base64 mac format_int
            parse_int mcp_group max_upload p now t w tree r
            (run_tool stamp date_text detect_favicon refuses cfg lim base decode_base64 mac
              format_int parse_int mcp_group max_upload p now who call).0
  run_tool-IsEntitled who call d checked = elim (run_tool-IsAllowed who call d) [
    | inl a ↦ inl (
      a,
      can-built a.caller (need call) (group_of mcp_group call) (slug_of call) t
          (checked a.caller a.known) a.named a.permitted,
    )
    | inr same ↦ inr same
  ]
