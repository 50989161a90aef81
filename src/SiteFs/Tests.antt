-- ===== src/SiteFs/Tests.antt =====
-- The theorems about paths within published content at concrete inputs.
use gotifacts.Prelude.{◌≡◌, [], ◌∷◌, ok, arith, refl}
use gotifacts.Text.{Text, codes, join, joined}
use gotifacts.Archive.Paths.{IsDestination}
use gotifacts.Archive.SafeJoin.{IsWithin}
use gotifacts.SiteFs.{safe_join}
use gotifacts.SiteFs.Joining.{safe_join-IsWithin}

abbrev site_root : Text
site_root = codes "/data"

site_root-IsDestination : IsDestination site_root
unfolding join joined
site_root-IsDestination = record {
  parts = codes "data" ∷ [];
  nonempty = λ k. absurd (cc);
  named = (
    record {
      nonempty = λ k. absurd (cc);
      not_dot = λ k. absurd (cc);
      not_up = λ k. absurd (cc);
      no_slash = ground arith;
    },
    tt,
  );
  path = refl;
}

safe_join-IsWithin_example :
    (target : Text) × (safe_join site_root (codes "../../etc/passwd") ≡ ok target)
    × IsWithin site_root target
safe_join-IsWithin_example =
    safe_join-IsWithin site_root (codes "../../etc/passwd") site_root-IsDestination
