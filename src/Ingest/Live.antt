-- ===== src/Ingest/Live.antt =====
-- internal/ingest/ingest.go: what a successful `Publish` serves.
use gotifacts.Prelude.{
  ℕ, ◌≡◌, ◌≢◌, append-nil, arith, refl, sym, ap, ◌∙◌, subst, Bool, true, [], ◌∷◌, ◌++◌, Option,
  none, some, Option-cases, Result-cases, inl, inr, Result, ok, err, All,
}
use gotifacts.Text.{Text, codes, text_eq}
use gotifacts.Router.SitePath.{SitePath, new_site_path}
use gotifacts.Archive.{Limits, ArchiveError}
use gotifacts.Archive.Paths.{IsName}
use gotifacts.Store.Sites.{Table, upsert_site}
use gotifacts.Files.{FilePath, Node, Disk, lookup, to_text, remove_all, bytes_below}
use gotifacts.Files.Frames.{apart}
use gotifacts.Ingest.{Settings, Published, IngestError, Step, content_path, sites_dir, tmp_dir}
use gotifacts.Ingest.Versions.{swap, new_stage_dir}
use gotifacts.Ingest.Publish.{
  Meta, Payload, Publication, publish, publish_staged, record_publish, clear_stage, staged, unpack,
  apply_effects, site_input,
}
use gotifacts.Ingest.Swapping.{swap_live}
use gotifacts.Ingest.Isolation.Staging.{stage-IsDestination, apply_effects-Keeps, unpack-IsConfined}
use gotifacts.Ingest.Isolation.Steps.{new_stage_dir-Keeps, new_stage_dir-eq-ok, remove_all-Keeps}

abbrev index_html : FilePath
index_html = codes "index.html" ∷ []

module _ (stamp date_text : ℕ → Text) (detect_favicon : Disk → FilePath → Text × Text) (base : Text)
    (sp : SitePath) (m : Meta) (now : ℕ) where
  -- A publication that is recorded has been swapped in, and the registry changes no file.
  record_publish-eq-ok :
      (t : Table) (s : Step) (out : Publication)
      → (record_publish stamp date_text detect_favicon base t sp m now s).1 ≡ ok out
      → (s.1 ≡ ok tt)
        × ((record_publish stamp date_text detect_favicon base t sp m now s).0.disk ≡ s.0)
  unfolding record_publish
  record_publish-eq-ok t (d, err e) out h = absurd (cc)
  record_publish-eq-ok t (d, ok tt) out h =
      elim (Result-cases
        (upsert_site t sp.group sp.slug
          (site_input m (date_text now) (bytes_below d (content_path sites_dir sp))) now).1) [
            | inl (e, r) ↦ absurd (cc (rw (r, record_publish) at h))
            | inr (a, r) ↦ (refl, rw (r, record_publish) refl)
          ]

-- What is staged goes live only if it was unpacked whole and has a page.
staged-eq-ok :
    (stage : FilePath) (d : Disk) (failed : Option ArchiveError)
    → staged stage d failed ≡ ok tt
    → (failed ≡ none) × ((n : Node) × (lookup d (stage ++ index_html) ≡ some n))
unfolding staged
staged-eq-ok stage d (some e) h = absurd (cc)
staged-eq-ok stage d none h = elim (Option-cases (lookup d (stage ++ index_html))) [
  | inl e ↦ absurd (cc (rw (e, staged) at h))
  | inr (n, e) ↦ (refl, (n, e))
]

tmp-IsName : IsName (codes ".tmp")
tmp-IsName = record {
  nonempty = λ k. cc;
  not_dot = λ k. cc;
  not_up = λ k. cc;
  no_slash = omega arith;
}

-- No entries lie below a directory that is not there.
abbrev pub HasNoOrphans : Disk → FilePath → Type 0
HasNoOrphans d dir = (r : FilePath) → lookup d dir ≡ none → lookup d (dir ++ r) ≡ none

clear_stage-disk :
    (stage : FilePath) (a : Published × Result IngestError Publication)
    → ((clear_stage stage a).0.disk ≡ remove_all a.0.disk stage) × ((clear_stage stage a).1 ≡ a.1)
unfolding clear_stage
clear_stage-disk stage (p, r) = (refl, refl)

module _ (stamp date_text : ℕ → Text) (detect_favicon : Disk → FilePath → Text × Text)
    (refuses : Text → Bool) (cfg : Settings) (lim : Limits) (base : Text) (p : Published) (m : Meta)
    (payload : Payload) (x : Text) (now : ℕ) where
  abbrev stage : FilePath
  stage = tmp_dir ++ x ∷ []

  -- The disk on which the payload is unpacked, and what the unpacking leaves.
  abbrev pub before : Disk
  before = (new_stage_dir p.disk (some x)).0

  abbrev pub unpacked : Disk
  unpacked = apply_effects (unpack refuses lim (to_text stage) payload).0.effects before

  -- The content of a site is what was unpacked, whole and with a page.
  pub record IsLive (after : Disk) : Type 0 where
    pub sp : SitePath
    pub named : new_site_path m.group m.slug ≡ ok sp
    pub whole : (unpack refuses lim (to_text stage) payload).1 ≡ none
    pub page : Node
    pub served : lookup after (content_path sites_dir sp ++ index_html) ≡ some page
    pub content :
        (r : FilePath)
        → lookup after (content_path sites_dir sp ++ r) ≡ lookup unpacked (stage ++ r)

  module _ (name : IsName x) where
    stage-names : All IsName stage
    stage-names = (tmp-IsName, (name, tt))

    away :
        (sp : SitePath) (r y : FilePath)
        → apart (tmp_dir ++ y) (content_path sites_dir sp ++ r) ≡ true
    unfolding content_path apart text_eq
    away sp r y = refl

    -- Unpacking changes nothing at the place of a site's content.
    kept :
        (sp : SitePath) (r : FilePath)
        → lookup unpacked (content_path sites_dir sp ++ r)
          ≡ lookup p.disk (content_path sites_dir sp ++ r)
    kept sp r =
        let q = content_path sites_dir sp ++ r in
        let full : stage ≢ [] = λ k. cc in
        apply_effects-Keeps stage full stage-names q (lookup p.disk q) (away sp r (x ∷ []))
          (unpack refuses lim (to_text stage) payload).0.effects before
          (unpack-IsConfined refuses lim (to_text stage) payload
            (stage-IsDestination stage full stage-names))
          (new_stage_dir-Keeps q (lookup p.disk q) p.disk (some x) (away sp r) refl)

    abbrev swapped : SitePath → Step
    swapped sp = swap stamp cfg unpacked stage (content_path sites_dir sp) sp now

    abbrev unstaged : SitePath → Published × Result IngestError Publication
    unstaged sp =
        publish_staged stamp date_text detect_favicon refuses cfg lim base
          (record p { disk = before }) sp m payload stage now

    -- A staged publication that succeeds was unpacked whole, has a page and was swapped in.
    publish_staged-eq-ok :
        (sp : SitePath) (out : Publication)
        → (unstaged sp).1 ≡ ok out
        → ((unpack refuses lim (to_text stage) payload).1 ≡ none)
          × ((n : Node) × (lookup unpacked (stage ++ index_html) ≡ some n))
          × ((swapped sp).1 ≡ ok tt)
          × ((unstaged sp).0.disk ≡ (swapped sp).0)
    unfolding publish_staged
    publish_staged-eq-ok sp out h =
        elim (Result-cases (staged stage unpacked (unpack refuses lim (to_text stage) payload).1)) [
          | inl (e, k) ↦ absurd (cc (rw (k, publish_staged) at h))
          | inr (u, k) ↦
              let (whole, page) = staged-eq-ok stage unpacked _ k in
              let (done, disk) =
                record_publish-eq-ok stamp date_text detect_favicon base sp m now p.sites
                  (swapped sp) out (rw (k, publish_staged) at h) in
              (whole, page, done, rw (k, publish_staged) disk)
        ]

    live-content :
        (sp : SitePath) (out : Publication) (r : FilePath)
        → HasNoOrphans p.disk (content_path sites_dir sp)
        → (unstaged sp).1 ≡ ok out
        → lookup (clear_stage stage (unstaged sp)).0.disk (content_path sites_dir sp ++ r)
          ≡ lookup unpacked (stage ++ r)
    live-content sp out r tree h =
        let dir = content_path sites_dir sp in
        let (_, _, done, disk) = publish_staged-eq-ok sp out h in
        let bare : lookup unpacked dir ≡ lookup p.disk dir =
          subst (λ z. lookup unpacked z ≡ lookup p.disk z) (append-nil dir) (kept sp []) in
        ap (λ (z : Disk). lookup z (dir ++ r)) ((clear_stage-disk stage (unstaged sp)).0)
        ∙ remove_all-Keeps (dir ++ r) (lookup (unstaged sp).0.disk (dir ++ r)) (unstaged sp).0.disk
            stage (away sp r (x ∷ [])) refl
        ∙ ap (λ (z : Disk). lookup z (dir ++ r)) disk
        ∙ swap_live stamp cfg sp now unpacked x r (λ k. kept sp r ∙ tree r (sym bare ∙ k)) done

    -- If a site is published, the place of its content holds what was unpacked from the payload, path
    -- by path, which is the whole payload and has a page; the name of the staging directory is a name,
    -- and no entries lay below a place for the content that was not there.
    pub publish-IsLive :
        (out : Publication)
        → ((sp : SitePath)
            → new_site_path m.group m.slug ≡ ok sp
            → HasNoOrphans p.disk (content_path sites_dir sp))
        → (publish stamp date_text detect_favicon refuses cfg lim base p m payload (some x) now).1
          ≡ ok out
        → IsLive
            (publish stamp date_text detect_favicon refuses cfg lim base p m payload
              (some x)
              now).0.disk
    unfolding publish
    publish-IsLive out tree h = elim (Result-cases (new_site_path m.group m.slug)) [
      | inl (e, n) ↦ absurd (cc (rw (n, publish) at h))
      | inr (sp, n) ↦ elim (Result-cases (new_stage_dir p.disk (some x)).1) [
        | inl (e, s) ↦ absurd (cc (rw (n, publish, s) at h))
        | inr (at, s) ↦
            let (y, same, e) = new_stage_dir-eq-ok p.disk (some x) s in
            let drawn : y ≡ x = cc in
            let made : (new_stage_dir p.disk (some x)).1 ≡ ok stage =
              s ∙ ap ok (e ∙ ap (λ z. tmp_dir ++ z ∷ []) drawn) in
            let ended : (unstaged sp).1 ≡ ok out =
              sym (clear_stage-disk stage (unstaged sp)).1 ∙ (rw (n, publish, made) at h) in
            let (whole, (page, has_page), _, _) = publish_staged-eq-ok sp out ended in
            rw (n, publish, made)
              (record {
                sp = sp;
                named = n;
                whole = whole;
                page = page;
                served = live-content sp out index_html (tree sp n) ended ∙ has_page;
                content = λ r. live-content sp out r (tree sp n) ended;
              })
      ]
    ]
