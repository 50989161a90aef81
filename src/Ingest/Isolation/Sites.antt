-- ===== src/Ingest/Isolation/Sites.antt =====
-- internal/ingest/ingest.go and versions.go: each operation on one site keeps the files and the row
-- of every other.
use gotifacts.Prelude.{
  ℕ, ◌≡◌, ◌≢◌, refl, ap, ◌∙◌, subst, Bool, true, not, [], ◌∷◌, ◌++◌, Option, none, Bool-cases,
  Option-cases, Result-cases, inl, inr, ok, All, append-nil, ◌||◌, arith,
}
use gotifacts.Text.{Text, codes, text_eq}
use gotifacts.Router.SitePath.{SitePath, IsValid, new_site_path}
use gotifacts.Router.SitePath.Segments.{SitePath-eq}
use gotifacts.Router.SitePath.Canonical.{new_site_path_idem, new_site_path-IsValid}
use gotifacts.Archive.{Limits}
use gotifacts.Archive.Paths.{IsName}
use gotifacts.Store.Sites.{soft_delete_site, restore_site, purge_deleted_site}
use gotifacts.Store.Sites.Lifecycle.{soft_delete, restore, purge, run, view}
use gotifacts.Files.{to_text, FilePath, Disk, lookup}
use gotifacts.Files.Frames.{apart, apart-append}
use gotifacts.Ingest.{
  Settings, Published, content_path, sites_dir, versions_dir, deleted_dir, tmp_dir,
}
use gotifacts.Ingest.Trash
use gotifacts.Ingest.Trash.{after_row, drop_quarantine}
use gotifacts.Ingest.Versions.{
  rollback, rollback_to, record_promoted, list_versions, last_text, new_stage_dir, revision_dir,
  current_revision, copy_entries, swap,
}
use gotifacts.Ingest.Publish.{Meta, Payload, publish, unpack, apply_effects, staged, publish_staged}
use gotifacts.Ingest.Isolation.Regions.{content_path-apart, tmp-apart}
use gotifacts.Ingest.Isolation.Staging.{stage-IsDestination, apply_effects-Keeps, unpack-IsConfined}
use gotifacts.Ingest.Isolation.Steps.{
  Keeps, move_tree-Keeps, promote-Keeps, swap-Keeps, copy_entries-Keeps, new_stage_dir-Keeps,
  new_stage_dir-eq-ok,
}
use gotifacts.Ingest.Isolation.Regions.{Tree, live, archive, quarantine, root_of}
use gotifacts.Ingest.Changes.{IsDraw}
use gotifacts.Ingest.Isolation.Rows.{
  Same, run-Same, after_row-Same, clear_stage-Same, drop_quarantine-Keeps, record_rollback-Same,
  record_publish-Same, record_promoted-Same,
}

-- Nothing of a site changes, neither a file in one of its directories nor its row, by an operation
-- that is about another site.
module _ (refuses : Text → Bool) (stamp date_text : ℕ → Text)
    (detect_favicon : Disk → FilePath → Text × Text) (cfg : Settings) (lim : Limits) (base : Text)
    (now : ℕ) (p : Published) (t : SitePath) (w : IsValid t) (tree : Tree) (r : FilePath) where
  abbrev pub place : FilePath
  place = content_path (root_of tree) t ++ r

  abbrev pub Unchanged : Published → Type 0
  Unchanged p' = Same t place (lookup p.disk place) (view p.sites t.group t.slug) p'

  right : (x : FilePath) → apart x (content_path (root_of tree) t) ≡ true → apart x place ≡ true
  right x h =
      subst (λ y. apart y place ≡ true) (append-nil x)
        (apart-append x (content_path (root_of tree) t) [] r h)

  away :
      (s : SitePath)
      → IsValid s
      → s ≢ t
      → (a : Tree) → apart (content_path (root_of a) s) place ≡ true
  away s v ne a = right _ (content_path-apart s t v w ne a tree)

  staging : (x : FilePath) → apart (tmp_dir ++ x) place ≡ true
  staging x = right (tmp_dir ++ x) (tmp-apart x tree t)

  -- A key that is not the one of `t`.
  other_key : (g s : Text) → new_site_path g s ≢ ok t → ¬ ((g ≡ t.group) × (s ≡ t.slug))
  other_key g s ne (a, b) = ne (rw (a, b) (new_site_path-IsValid t w))

  other_site : (s : SitePath) → s ≢ t → ¬ ((s.group ≡ t.group) × (s.slug ≡ t.slug))
  other_site s ne (a, b) = ne (SitePath-eq s t a b)

  unchanged : Unchanged p
  unchanged = (refl, refl)

  module _ (g s : Text) (ne : new_site_path g s ≢ ok t) where
    pub unpublish-Same : Unchanged (Trash.unpublish p g s now).0
    unfolding Trash.unpublish run
    unpublish-Same = elim (Result-cases (new_site_path g s)) [
      | inl (e, h) ↦ rw (h, Trash.unpublish) unchanged
      | inr (sp, h) ↦
          let v = (new_site_path_idem g s sp h).0 in
          let a = away sp v (λ k. ne (h ∙ ap ok k)) in
          rw (h, Trash.unpublish)
            (after_row-Same t place _ _ p.disk _ (soft_delete_site p.sites g s now)
              (move_tree-Keeps place _ p.disk _ _ sites_dir (a live) (a quarantine) refl)
              (run-Same t place _ _ p.disk p.sites g s now soft_delete (other_key g s ne)
                unchanged))
    ]

    pub restore-Same : Unchanged (Trash.restore p g s now).0
    unfolding Trash.restore run
    restore-Same = elim (Result-cases (new_site_path g s)) [
      | inl (e, h) ↦ rw (h, Trash.restore) unchanged
      | inr (sp, h) ↦
          let v = (new_site_path_idem g s sp h).0 in
          let a = away sp v (λ k. ne (h ∙ ap ok k)) in
          rw (h, Trash.restore)
            (after_row-Same t place _ _ p.disk _ (restore_site p.sites g s now)
              (move_tree-Keeps place _ p.disk _ _ deleted_dir (a quarantine) (a live) refl)
              (run-Same t place _ _ p.disk p.sites g s now restore (other_key g s ne) unchanged))
    ]

    pub purge-Same : Unchanged (Trash.purge p g s).0
    unfolding Trash.purge run
    purge-Same = elim (Result-cases (new_site_path g s)) [
      | inl (e, h) ↦ rw (h, Trash.purge) unchanged
      | inr (sp, h) ↦
          let v = (new_site_path_idem g s sp h).0 in
          let d = λ (k : sp ≡ t). ne (h ∙ ap ok k) in
          rw (h, Trash.purge)
            (after_row-Same t place _ _ p.disk _ (purge_deleted_site p.sites g s)
              (drop_quarantine-Keeps t place _ none sp (other_site sp d) (away sp v d) now p.disk
                refl)
              (run-Same t place _ _ p.disk p.sites g s now purge (other_key g s ne) unchanged))
    ]

  module _ (sp : SitePath) (v : IsValid sp) (ne : sp ≢ t) where
    pub rollback-Same : Unchanged (rollback stamp detect_favicon cfg p sp now).0
    unfolding rollback
    rollback-Same = elim (Bool-cases (not cfg.versioning_enabled)) [
      | inl e ↦ rw (e, rollback) unchanged
      | inr e ↦ elim (Result-cases (list_versions p.disk (content_path versions_dir sp))) [
        | inl (x, h) ↦ rw (e, rollback, h) unchanged
        | inr (vs, h) ↦ elim (Option-cases (last_text vs)) [
          | inl l ↦ rw (e, rollback, h, l) unchanged
          | inr (latest, l) ↦
              rw (e, rollback, h, l)
                (record_rollback-Same t place _ _ sp (other_site sp ne) (away sp v ne) now
                  detect_favicon p.sites _
                  (
                    promote-Keeps place _ stamp cfg sp now (away sp v ne archive) p.disk latest
                        (away sp v ne live) refl,
                    refl,
                  ))
        ]
      ]
    ]

    pub rollback_to-Same :
        (rev : Text) (drawn : Option Text) → Unchanged (rollback_to stamp cfg p sp rev drawn now).0
    unfolding rollback_to
    rollback_to-Same rev drawn = elim (Bool-cases (not cfg.versioning_enabled)) [
      | inl e ↦ rw (e, rollback_to) unchanged
      | inr e ↦ elim (Bool-cases (text_eq rev [] || text_eq rev current_revision)) [
        | inl c ↦ rw (e, rollback_to, c) unchanged
        | inr c ↦ elim (Result-cases (revision_dir p.disk sp rev)) [
          | inl (x, h) ↦ rw (e, rollback_to, c, h) unchanged
          | inr (src, h) ↦ elim (Result-cases (new_stage_dir p.disk drawn).1) [
            | inl (x, m) ↦ rw (e, rollback_to, c, h, m) (made, refl)
            | inr (stage, m) ↦ rw (e, rollback_to, c, h, m) (promoted src stage m)
          ]
        ]
      ]
    ]
      where
        made : Keeps place (lookup p.disk place) (new_stage_dir p.disk drawn).0
        made = new_stage_dir-Keeps place _ p.disk drawn staging refl

        promoted :
            (src stage : FilePath)
            → (new_stage_dir p.disk drawn).1 ≡ ok stage
            → Unchanged
                (record_promoted p.sites sp stage now (
                  swap stamp cfg
                    (copy_entries
                      (new_stage_dir p.disk drawn).0
                      (new_stage_dir p.disk drawn).0
                      src
                      stage)
                    stage
                    (content_path sites_dir sp)
                    sp
                    now)).0
        promoted src stage m =
            let d = (new_stage_dir p.disk drawn).0 in
            let (x, _, at) = new_stage_dir-eq-ok p.disk drawn m in
            let a : apart stage place ≡ true = rw at (staging (x ∷ [])) in
            record_promoted-Same t place _ _ sp (other_site sp ne) (away sp v ne) now p.sites stage
              _ a
              (
                swap-Keeps place _ stamp cfg sp now (away sp v ne archive)
                    (copy_entries d d src stage) stage (content_path sites_dir sp) a
                    (away sp v ne live) (copy_entries-Keeps place _ d d src stage a made),
                refl,
              )

  tmp-IsName : IsName (codes ".tmp")
  tmp-IsName = record {
    nonempty = λ k. cc;
    not_dot = λ k. cc;
    not_up = λ k. cc;
    no_slash = omega arith;
  }

  -- The staging directory that a draw of hexadecimal digits gives.
  draw-IsName :
      (drawn : Option Text) {stage : FilePath}
      → IsDraw drawn
      → (new_stage_dir p.disk drawn).1 ≡ ok stage
      → All IsName stage × (stage ≢ []) × (apart stage place ≡ true)
  draw-IsName drawn n m =
      let (x, e, at) = new_stage_dir-eq-ok p.disk drawn m in
      let named : IsName x = subst IsDraw e n in
      rw at ((tmp-IsName, (named, tt)), (λ k. cc), staging (x ∷ []))

  publish_staged-Same :
      (d : Disk) (sp : SitePath) (m : Meta) (payload : Payload) (stage : FilePath)
      → IsValid sp
      → sp ≢ t
      → All IsName stage
      → stage ≢ []
      → apart stage place ≡ true
      → Keeps place (lookup p.disk place) d
      → Unchanged
          (publish_staged stamp date_text detect_favicon refuses cfg lim base
            (record p { disk = d })
            sp
            m
            payload
            stage
            now).0
  unfolding publish_staged
  publish_staged-Same d sp m payload stage v ne named full a k =
      let out = unpack refuses lim (to_text stage) payload in
      let d1 = apply_effects out.0.effects d in
      let kept : Keeps place (lookup p.disk place) d1 =
        apply_effects-Keeps stage full named place _ a out.0.effects d
          (unpack-IsConfined refuses lim (to_text stage) payload
            (stage-IsDestination stage full named))
          k in
      elim (Result-cases (staged stage d1 out.1)) [
        | inl (e, h) ↦ rw (h, publish_staged) (kept, refl)
        | inr (u, h) ↦
            rw (h, publish_staged)
              (record_publish-Same t place _ _ sp (other_site sp ne) (away sp v ne) now
                detect_favicon date_text stamp base p.sites m _
                (
                  swap-Keeps place _ stamp cfg sp now (away sp v ne archive) d1 stage
                      (content_path sites_dir sp) a (away sp v ne live) kept,
                  refl,
                ))
      ]

  pub publish-Same :
      (m : Meta) (payload : Payload) (drawn : Option Text)
      → new_site_path m.group m.slug ≢ ok t
      → IsDraw drawn
      → Unchanged
          (publish stamp date_text detect_favicon refuses cfg lim base p m payload drawn now).0
  unfolding publish
  publish-Same m payload drawn ne n = elim (Result-cases (new_site_path m.group m.slug)) [
    | inl (e, h) ↦ rw (h, publish) unchanged
    | inr (sp, h) ↦
        let made = new_stage_dir-Keeps place _ p.disk drawn staging refl in
        elim (Result-cases (new_stage_dir p.disk drawn).1) [
          | inl (x, s) ↦ rw (h, publish, s) (made, refl)
          | inr (stage, s) ↦
              let (named, full, a) = draw-IsName drawn n s in
              rw (h, publish, s)
                (clear_stage-Same t place _ _ stage _ a (
                  publish_staged-Same (new_stage_dir p.disk drawn).0 sp m payload stage
                    ((new_site_path_idem m.group m.slug sp h).0) (λ k. ne (h ∙ ap ok k)) named full
                    a made))
        ]
  ]
