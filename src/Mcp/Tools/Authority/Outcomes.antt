-- ===== src/Mcp/Tools/Authority/Outcomes.antt =====
-- internal/mcpserver/mcpserver.go: how each tool ends: the call was allowed, or the site is as
-- before.
use gotifacts.Prelude.{
  ℕ, ◌≡◌, ◌≢◌, refl, sym, ap, ◌∙◌, subst, Bool, true, not, [], ◌⊎◌, inl, inr, ◌++◌, Option, some,
  none, Bool-cases, Result-cases, Result, ok, err, ltb, length,
}
use gotifacts.Text.{Text, text_eq, trim_space}
use gotifacts.Keys.{Capability, cap_publish, cap_unpublish, cap_patch, cap_rollback, cap_purge}
use gotifacts.Auth.{Principal, can, can_publish_to}
use gotifacts.Archive.{Limits}
use gotifacts.Router.SitePath.{SitePath, IsValid, new_site_path}
use gotifacts.Router.SitePath.Canonical.{new_site_path_idem, new_site_path-IsValid}
use gotifacts.Store.Sites.{patch_site}
use gotifacts.Store.Sites.Lifecycle.{patch, run, view}
use gotifacts.Store.Sites.Isolation.{run-other}
use gotifacts.Files.{FilePath, Disk, lookup}
use gotifacts.Ingest.{Settings, Published, IngestError, content_path}
use gotifacts.Ingest.Trash.{unpublish, restore, purge}
use gotifacts.Ingest.Versions.{list_revisions, rollback, rollback_to}
use gotifacts.Ingest.Publish.{Payload, bundle, publish}
use gotifacts.Ingest.Changes.{
  Change, publishing, unpublishing, restoring, purging, rolling_back, rolling_back_to, run_change,
  IsDraw, Elsewhere,
}
use gotifacts.Ingest.Isolation.{Tree, root_of, run_change-other}
use gotifacts.Mcp.Reading.{target_group}
use gotifacts.Mcp.Tools.{
  same_bool, patched, patch_of, Called, Reply, PublishInput, UpdateInput, ToolCall, call_publish,
  call_unpublish, call_restore, call_list_revisions, call_update, call_rollback, call_purge,
  reply_of, guarded, run_tool, publish_site, publish_content, publish_payload, unpublish_site,
  restore_site, update_site, list_site_revisions, rollback_site, roll_back, purge_site, purge_if,
  meta_of,
}
use gotifacts.Mcp.Tools.Confirmation.{
  Confirming, confirm_purge, Confirmed, proceed, ask, rejected, cancelled,
}
use gotifacts.Mcp.Tools.Bundle.{build_bundle}
use gotifacts.Mcp.Tools.Authority.Consent.{
  need, group_of, slug_of, Consent, IsAllowed, confirm_purge-HasConsent, names,
}

module _ (stamp date_text : ℕ → Text) (detect_favicon : Disk → FilePath → Text × Text)
    (refuses : Text → Bool) (cfg : Settings) (lim : Limits) (base : Text)
    (decode_base64 : Text → Option Text) (mac : Text → Text) (format_int : ℕ → Text)
    (parse_int : Text → Option ℕ) (mcp_group : Text) (max_upload : ℕ) (p : Published) (now : ℕ)
    (t : SitePath) (w : IsValid t) (tree : Tree) (r : FilePath) where
  -- A path below a directory of the site, and the row of the site, are as before.
  abbrev pub Untouched : Published → Type 0
  Untouched p' =
      (lookup p'.disk (content_path (root_of tree) t ++ r)
        ≡ lookup p.disk (content_path (root_of tree) t ++ r))
      × (view p'.sites t.group t.slug ≡ view p.sites t.group t.slug)

  abbrev pub tool : Option Principal → ToolCall → Called
  tool =
      run_tool stamp date_text detect_favicon refuses cfg lim base decode_base64 mac format_int
        parse_int mcp_group max_upload p now

  abbrev pub Outcome : Option Principal → ToolCall → Called → Type 0
  Outcome who call x = IsAllowed mac format_int parse_int mcp_group now who call t ⊎ Untouched x.0

  -- An operation of the publisher, as the end of a tool.
  change-Untouched :
      {A : Type 0} (f : A → Reply) (c : Change) (x : Published × Result IngestError A)
      → x.0 ≡ run_change refuses stamp date_text detect_favicon cfg lim base now p c
      → Elsewhere t c
      → Untouched (reply_of f x).0
  unfolding reply_of
  change-Untouched f c (p', err e) h o =
      subst Untouched (sym h)
        (run_change-other refuses stamp date_text detect_favicon cfg lim base now p t tree r c w o)
  change-Untouched f c (p', ok a) h o =
      subst Untouched (sym h)
        (run_change-other refuses stamp date_text detect_favicon cfg lim base now p t tree r c w o)

  guarded-Outcome :
      (c : Capability) (who : Option Principal) (g s : Text) (act : Principal → Called)
      (call : ToolCall)
      → ((a : Principal) → who ≡ some a → can a c g s ≡ true → Outcome who call (act a))
      → Outcome who call (guarded c p who g s act)
  unfolding guarded
  guarded-Outcome c none g s act call h = inr (refl, refl)
  guarded-Outcome c (some a) g s act call h = elim (Bool-cases (text_eq (trim_space s) [])) [
    | inl e ↦ rw e (inr (refl, refl))
    | inr e ↦ elim (Bool-cases (can a c g s)) [
      | inl may ↦ rw (e, may) (h a refl may)
      | inr denied ↦ rw (e, denied) (inr (refl, refl))
    ]
  ]

  module _ (who : Option Principal) where
    -- A caller who holds the capability is allowed, or the call is about another site.
    caller_cases :
        (call : ToolCall) (a : Principal)
        → who ≡ some a
        → can a (need call) (group_of mcp_group call) (slug_of call) ≡ true
        → Consent mac format_int parse_int mcp_group now call a.user
        → IsAllowed mac format_int parse_int mcp_group now who call t
          ⊎ (new_site_path (group_of mcp_group call) (slug_of call) ≢ ok t)
    caller_cases call a k may consent = elim (names (group_of mcp_group call) (slug_of call) t) [
      | inl n ↦
          inl (record { caller = a; known = k; permitted = may; named = n; consent = consent })
      | inr ne ↦ inr ne
    ]

    pub unpublish-Outcome :
        (g s : Text) → Outcome who (call_unpublish g s) (tool who (call_unpublish g s))
    unfolding run_tool unpublish_site run_change
    unpublish-Outcome g s =
        let call = call_unpublish g s in
        let group = target_group mcp_group g in
        guarded-Outcome cap_unpublish who group s _ call (λ a k may.
          elim (caller_cases call a k may tt) [
            | inl i ↦ inl i
            | inr ne ↦
                inr (change-Untouched _ (unpublishing group s) (unpublish p group s now) refl ne)
          ])

    pub restore-Outcome :
        (g s : Text) → Outcome who (call_restore g s) (tool who (call_restore g s))
    unfolding run_tool restore_site run_change
    restore-Outcome g s =
        let call = call_restore g s in
        let group = target_group mcp_group g in
        guarded-Outcome cap_publish who group s _ call (λ a k may.
          elim (caller_cases call a k may tt) [
            | inl i ↦ inl i
            | inr ne ↦ inr (change-Untouched _ (restoring group s) (restore p group s now) refl ne)
          ])

    pub revisions-Outcome :
        (g s : Text) → Outcome who (call_list_revisions g s) (tool who (call_list_revisions g s))
    unfolding run_tool list_site_revisions
    revisions-Outcome g s =
        let group = target_group mcp_group g in
        guarded-Outcome cap_rollback who group s _ (call_list_revisions g s) (λ a k may.
          inr (elim (Result-cases (new_site_path group s)) [
            | inl (e, h) ↦ rw h (refl, refl)
            | inr (sp, h) ↦ elim (Result-cases (list_revisions p.disk sp)) [
              | inl (e, h2) ↦ rw (h, h2) (refl, refl)
              | inr (rs, h2) ↦ rw (h, h2) (refl, refl)
            ]
          ]))

    patched-Untouched :
        (g0 s g : Text) (input : UpdateInput)
        → new_site_path g s ≢ ok t
        → Untouched
            (patched stamp date_text detect_favicon refuses cfg lim base decode_base64 mac
              format_int parse_int mcp_group max_upload p now who g0 s
              (patch_site p.sites g s (patch_of input) now)).0
    unfolding patched run
    patched-Untouched g0 s g input ne =
        let kept =
          run-other p.sites g s t.group t.slug now (patch (patch_of input))
            (λ (a, b). ne (rw (a, b) (new_site_path-IsValid t w))) in
        elim (Result-cases (patch_site p.sites g s (patch_of input) now).1) [
          | inl (e, h) ↦ rw (h, patched) (refl, kept)
          | inr (x, h) ↦ rw (h, patched) (refl, kept)
        ]

    pub update-Outcome :
        (g s : Text) (input : UpdateInput)
        → Outcome who (call_update g s input) (tool who (call_update g s input))
    unfolding run_tool update_site patched run
    update-Outcome g s input =
        let call = call_update g s input in
        let group = target_group mcp_group g in
        guarded-Outcome cap_patch who group s _ call (λ a k may.
          elim (caller_cases call a k may tt) [
            | inl i ↦ inl i
            | inr ne ↦ inr (patched-Untouched g s group input ne)
          ])

    roll_back-Untouched :
        (g s : Text) (sp : SitePath) (rev : Text) (drawn : Option Text)
        → IsValid sp
        → sp ≢ t
        → Untouched
            (roll_back stamp date_text detect_favicon refuses cfg lim base decode_base64 mac
              format_int parse_int mcp_group max_upload p now who g s sp rev drawn).0
    unfolding roll_back run_change
    roll_back-Untouched g s sp rev drawn v ne = elim (Bool-cases (text_eq rev [])) [
      | inl h ↦ rw h (
          change-Untouched _ (rolling_back sp) (rollback stamp detect_favicon cfg p sp now) refl
            (v, ne))
      | inr h ↦ rw h (
          change-Untouched _ (rolling_back_to sp rev drawn)
            (rollback_to stamp cfg p sp rev drawn now) refl (v, ne))
    ]

    pub rollback-Outcome :
        (g s rev : Text) (drawn : Option Text)
        → Outcome who (call_rollback g s rev drawn) (tool who (call_rollback g s rev drawn))
    unfolding run_tool rollback_site
    rollback-Outcome g s rev drawn =
        let call = call_rollback g s rev drawn in
        let group = target_group mcp_group g in
        guarded-Outcome cap_rollback who group s _ call (λ a k may.
          elim (caller_cases call a k may tt) [
            | inl i ↦ inl i
            | inr ne ↦ inr (elim (Result-cases (new_site_path group s)) [
              | inl (e, h) ↦ rw h (refl, refl)
              | inr (sp, h) ↦ rw h (
                  roll_back-Untouched g s sp (trim_space rev) drawn
                    (new_site_path_idem group s sp h).0 (λ same. ne (h ∙ ap ok same)))
            ])
          ])

    abbrev end_purge : Text → Text → Confirmed → Called
    end_purge g s d =
        purge_if stamp date_text detect_favicon refuses cfg lim base decode_base64 mac format_int
          parse_int mcp_group max_upload p now who g s d (target_group mcp_group g)

    purge_if-Outcome :
        (g s : Text) (c : Confirming) (a : Principal) (d : Confirmed)
        → who ≡ some a
        → can a cap_purge (target_group mcp_group g) s ≡ true
        → confirm_purge mac format_int parse_int c a.user (target_group mcp_group g) s now ≡ d
        → Outcome who (call_purge g s c) (end_purge g s d)
    unfolding purge_if run_change
    purge_if-Outcome g s c a proceed k may go =
        let call = call_purge g s c in
        let group = target_group mcp_group g in
        let consent =
          confirm_purge-HasConsent mac format_int parse_int mcp_group now c a.user group s go in
        elim (caller_cases call a k may consent) [
          | inl i ↦ inl i
          | inr ne ↦ inr (change-Untouched _ (purging group s) (purge p group s) refl ne)
        ]
    purge_if-Outcome g s c a (ask token) k may go = inr (refl, refl)
    purge_if-Outcome g s c a rejected k may go = inr (refl, refl)
    purge_if-Outcome g s c a cancelled k may go = inr (refl, refl)

    pub purge-Outcome :
        (g s : Text) (c : Confirming) → Outcome who (call_purge g s c) (tool who (call_purge g s c))
    unfolding run_tool purge_site
    purge-Outcome g s c =
        guarded-Outcome cap_purge who (target_group mcp_group g) s _ (call_purge g s c)
          (λ a k may. purge_if-Outcome g s c a _ k may refl)

    publish_payload-Untouched :
        (input : PublishInput) (payload : Payload) (drawn : Option Text)
        → IsDraw drawn
        → new_site_path (target_group mcp_group input.group) input.slug ≢ ok t
        → Untouched
            (publish_payload stamp date_text detect_favicon refuses cfg lim base decode_base64 mac
              format_int parse_int mcp_group max_upload p now
              (target_group mcp_group input.group)
              input
              payload
              drawn).0
    unfolding publish_payload meta_of run_change
    publish_payload-Untouched input payload drawn d ne =
        let m =
          meta_of stamp date_text detect_favicon refuses cfg lim base decode_base64 mac format_int
            parse_int mcp_group max_upload p now (target_group mcp_group input.group) input in
        change-Untouched _ (publishing m payload drawn)
          (publish stamp date_text detect_favicon refuses cfg lim base p m payload drawn now) refl
          (ne, d)

    publish_content-Untouched :
        (input : PublishInput) (drawn : Option Text)
        → IsDraw drawn
        → new_site_path (target_group mcp_group input.group) input.slug ≢ ok t
        → Untouched
            (publish_content stamp date_text detect_favicon refuses cfg lim base decode_base64 mac
              format_int parse_int mcp_group max_upload p now
              (target_group mcp_group input.group)
              input
              drawn).0
    unfolding publish_content
    publish_content-Untouched input drawn d ne = elim (Bool-cases (ltb 0 (length input.uploads))) [
      | inl e ↦ elim (Result-cases (build_bundle decode_base64 input.uploads max_upload)) [
        | inl (b, h) ↦ rw (e, h) (refl, refl)
        | inr (stream, h) ↦ rw (e, h) (publish_payload-Untouched input (bundle stream) drawn d ne)
      ]
      | inr e ↦ elim (Bool-cases (ltb max_upload (length input.html))) [
        | inl h ↦ rw (e, h) (refl, refl)
        | inr h ↦ rw (e, h) (publish_payload-Untouched input _ drawn d ne)
      ]
    ]

    pub publish-Outcome :
        (input : PublishInput) (drawn : Option Text)
        → IsDraw drawn
        → (o : Option Principal) → who ≡ o
        → Outcome who (call_publish input drawn) (tool o (call_publish input drawn))
    unfolding run_tool publish_site can_publish_to
    publish-Outcome input drawn d none k = inr (refl, refl)
    publish-Outcome input drawn d (some a) k =
        let call = call_publish input drawn in
        let mixed =
          same_bool (not (text_eq (trim_space input.html) [])) (ltb 0 (length input.uploads)) in
        elim (Bool-cases mixed) [
          | inl e ↦ rw e (inr (refl, refl))
          | inr e ↦ elim (Bool-cases (can a cap_publish (group_of mcp_group call) input.slug)) [
            | inr denied ↦ rw (e, denied) (inr (refl, refl))
            | inl may ↦ elim (caller_cases call a k may tt) [
              | inl i ↦ inl i
              | inr ne ↦ rw (e, may) (inr (publish_content-Untouched input drawn d ne))
            ]
          ]
        ]
