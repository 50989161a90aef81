-- ===== src/Mcp/Tools.antt =====
-- internal/mcpserver/mcpserver.go: the tools of the MCP server that change sites. The parameters
-- are those of the publisher, of a bundle and of a confirmation; logging and the texts for a reader
-- are left out.
pub mod Bundle
pub mod Confirmation
pub mod Authority
mod Tests
use gotifacts.Prelude.{
  ℕ, Bool, true, false, not, List, [], ◌∷◌, Option, none, some, ltb, if◌then◌else◌, Result, ok, err,
  length,
}
use gotifacts.Text.{Text, text_eq, trim_space}
use gotifacts.Keys.{Capability, cap_publish, cap_unpublish, cap_patch, cap_rollback, cap_purge}
use gotifacts.Auth.{Principal, can, can_publish_to}
use gotifacts.Archive.{Limits, Content}
use gotifacts.Router.SitePath.{SitePath, PathError, new_site_path}
use gotifacts.Store.Site.{StoreError, Site, SitePatch}
use gotifacts.Store.Sites.{Table, patch_site}
use gotifacts.Files.{FilePath, Disk, FileError}
use gotifacts.Ingest.{Settings, Published, IngestError}
use gotifacts.Ingest.Trash.{unpublish, restore, purge}
use gotifacts.Ingest.Versions.{Revision, list_revisions, rollback, rollback_to}
use gotifacts.Ingest.Publish.{Meta, Payload, bundle, single_page, Publication, publish}
use gotifacts.Mcp.Reading.{target_group}
use gotifacts.Mcp.Tools.Bundle.{PublishFile, BundleError, build_bundle}
use gotifacts.Mcp.Tools.Confirmation.{
  Confirming, Confirmed, proceed, ask, rejected, cancelled, confirm_purge,
}

-- What a tool replies; a purge may ask for a confirmation, with the state to send back.
pub data Reply : Type 0 where
  done : Reply
  published : Publication → Reply
  revisions : List Revision → Reply
  confirmation_wanted : Text → Reply
  purge_cancelled : Reply
  authentication_required wrong_content not_permitted html_too_large empty_slug bad_confirmation :
      Reply
  bad_bundle : BundleError → Reply
  invalid_site_path : PathError → Reply
  failed : IngestError → Reply
  update_failed : StoreError → Reply
  listing_failed : FileError → Reply

abbrev pub Called : Type 0
Called = Published × Reply

-- publishInput
pub record PublishInput : Type 0 where
  pub slug : Text
  pub html : Text
  pub uploads : List PublishFile
  pub title : Text
  pub description : Text
  pub tags : List Text
  pub group : Text

-- updateInput; absent tags are `none`
pub record UpdateInput : Type 0 where
  pub title : Option Text
  pub description : Option Text
  pub tags : Option (List Text)
  pub hidden : Option Bool

-- The tools, each with the group and the slug of a call, its other inputs, and the name that the
-- staging directory gets.
pub data ToolCall : Type 0 where
  call_publish : PublishInput → Option Text → ToolCall
  call_unpublish call_restore call_list_revisions : Text → Text → ToolCall
  call_update : Text → Text → UpdateInput → ToolCall
  call_rollback : Text → Text → Text → Option Text → ToolCall
  call_purge : Text → Text → Confirming → ToolCall

-- The patch of `updateSite`.
unfoldable pub patch_of : UpdateInput → SitePatch
patch_of input = record {
  title = input.title;
  description = input.description;
  date = none;
  tags = input.tags;
  repo = none;
  preview = none;
  hidden = input.hidden;
}

-- The end of a tool that calls the publisher.
unfoldable pub reply_of : {A : Type 0} → (A → Reply) → Published × Result IngestError A → Called
reply_of f (p, err e) = (p, failed e)
reply_of f (p, ok a) = (p, f a)

-- The checks that the tools but publish_site make before they act.
unfoldable pub guarded :
    Capability → Published → Option Principal → Text → Text → (Principal → Called) → Called
guarded c p none group slug act = (p, authentication_required)
guarded c p (some who) group slug act =
    if text_eq (trim_space slug) []
    then (p, empty_slug)
    else if not (can who c group slug)
    then (p, not_permitted)
    else act who

-- `==` on booleans
abbrev pub same_bool : Bool → Bool → Bool
same_bool true b = b
same_bool false b = not b

module _ (stamp date_text : ℕ → Text) (detect_favicon : Disk → FilePath → Text × Text)
    (refuses : Text → Bool) (cfg : Settings) (lim : Limits) (base : Text)
    (decode_base64 : Text → Option Text) (mac : Text → Text) (format_int : ℕ → Text)
    (parse_int : Text → Option ℕ) (mcp_group : Text) (max_upload : ℕ) (p : Published)
    (now : ℕ) where
  -- The metadata of a call of publish_site.
  unfoldable pub meta_of : Text → PublishInput → Meta
  meta_of group input = record {
    group = group;
    slug = input.slug;
    title = input.title;
    description = input.description;
    date = [];
    tags = input.tags;
    repo = [];
    preview = [];
    hidden = false;
  }

  unfoldable pub publish_payload : Text → PublishInput → Payload → Option Text → Called
  publish_payload group input payload drawn = reply_of published (
      publish stamp date_text detect_favicon refuses cfg lim base p (meta_of group input) payload
        drawn now)

  -- The content of a call of publish_site.
  unfoldable pub publish_content : Text → PublishInput → Option Text → Called
  publish_content group input drawn =
      if ltb 0 (length input.uploads)
      then elim (build_bundle decode_base64 input.uploads max_upload) [
        | err e ↦ (p, bad_bundle e)
        | ok stream ↦ publish_payload group input (bundle stream) drawn
      ]
      else if ltb max_upload (length input.html)
      then (p, html_too_large)
      else publish_payload group input (single_page (record { bytes = input.html; intact = true }))
          drawn

  -- publishSite
  unfoldable pub publish_site : Option Principal → PublishInput → Option Text → Called
  publish_site none input drawn = (p, authentication_required)
  publish_site (some who) input drawn =
      let group = target_group mcp_group input.group in
      if same_bool (not (text_eq (trim_space input.html) [])) (ltb 0 (length input.uploads))
      then (p, wrong_content)
      else if not (can_publish_to who group input.slug)
      then (p, not_permitted)
      else publish_content group input drawn

  module _ (who : Option Principal) (group_in slug : Text) where
    -- unpublishSite
    unfoldable pub unpublish_site : Called
    unpublish_site =
        let group = target_group mcp_group group_in in
        guarded cap_unpublish p who group slug
          (λ _. reply_of (λ _. done) (unpublish p group slug now))

    -- restoreSite
    unfoldable pub restore_site : Called
    restore_site =
        let group = target_group mcp_group group_in in
        guarded cap_publish p who group slug (λ _. reply_of (λ _. done) (restore p group slug now))

    unfoldable pub patched : Table × Result StoreError Site → Called
    patched (t, err e) = (record p { sites = t }, update_failed e)
    patched (t, ok r) = (record p { sites = t }, done)

    -- updateSite
    unfoldable pub update_site : UpdateInput → Called
    update_site input =
        let group = target_group mcp_group group_in in
        guarded cap_patch p who group slug
          (λ _. patched (patch_site p.sites group slug (patch_of input) now))

    -- listRevisions
    unfoldable pub list_site_revisions : Called
    list_site_revisions =
        let group = target_group mcp_group group_in in
        guarded cap_rollback p who group slug (λ _. elim (new_site_path group slug) [
          | err e ↦ (p, invalid_site_path e)
          | ok sp ↦ elim (list_revisions p.disk sp) [
            | err e ↦ (p, listing_failed e)
            | ok rs ↦ (p, revisions rs)
          ]
        ])

    -- The part of `rollbackSite` behind its checks.
    unfoldable pub roll_back : SitePath → Text → Option Text → Called
    roll_back sp rev drawn =
        if text_eq rev []
        then reply_of (λ _. done) (rollback stamp detect_favicon cfg p sp now)
        else reply_of (λ _. done) (rollback_to stamp cfg p sp rev drawn now)

    -- rollbackSite
    unfoldable pub rollback_site : Text → Option Text → Called
    rollback_site revision drawn =
        let group = target_group mcp_group group_in in
        guarded cap_rollback p who group slug (λ _. elim (new_site_path group slug) [
          | err e ↦ (p, invalid_site_path e)
          | ok sp ↦ roll_back sp (trim_space revision) drawn
        ])

    -- The end of `purgeSite`, once confirmPurge has decided.
    unfoldable pub purge_if : Confirmed → Text → Called
    purge_if proceed group = reply_of (λ _. done) (purge p group slug)
    purge_if (ask token) group = (p, confirmation_wanted token)
    purge_if rejected group = (p, bad_confirmation)
    purge_if cancelled group = (p, purge_cancelled)

    -- purgeSite
    unfoldable pub purge_site : Confirming → Called
    purge_site c =
        let group = target_group mcp_group group_in in
        guarded cap_purge p who group slug
          (λ w. purge_if (confirm_purge mac format_int parse_int c w.user group slug now) group)

  -- A call, handed to its tool.
  unfoldable pub run_tool : Option Principal → ToolCall → Called
  run_tool who (call_publish input drawn) = publish_site who input drawn
  run_tool who (call_unpublish g s) = unpublish_site who g s
  run_tool who (call_restore g s) = restore_site who g s
  run_tool who (call_list_revisions g s) = list_site_revisions who g s
  run_tool who (call_update g s input) = update_site who g s input
  run_tool who (call_rollback g s rev drawn) = rollback_site who g s rev drawn
  run_tool who (call_purge g s c) = purge_site who g s c
