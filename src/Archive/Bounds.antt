-- ===== src/Archive/Bounds.antt =====
-- internal/archive/archive.go: one entry of an archive keeps within the limits.
pub mod Loops
use gotifacts.Prelude.{
  ℕ, zero, suc, ◌+◌, ◌-◌, ◌≤◌, ◌<◌, ◌≡◌, refl, Bool, true, false, not, ◌&&◌, ◌||◌, List, [], ◌∷◌,
  arith, Option, none, some, if◌then◌else◌, Bool-cases, inl, inr, Result, ok, err, Result-cases,
  ltb, leb, length, take, tests,
}
use gotifacts.Text.{Text, codes, text_eq, trim_prefix}
use gotifacts.Archive.{
  Limits, ArchiveError, refused, bad_archive, too_large, too_many_entries, unsupported, Content,
  Effect, make_dir, write, Progress, start, Outcome, TarKind, directory, regular, symbolic_link,
  hard_link, other_kind, TarEntry, TarStream, end, broken, entry, ZipEntry, write_file,
  extract_kind, tar_entry, tar_loop, extract_tar_gz, zip_entry, zip_file, zip_loop, extract_zip,
  safe_join, clean_rel, single_root_prefix, join_path, proceed,
}

-- The number of bytes that were written to files.
abbrev pub volume : List Effect → ℕ
volume [] = 0
volume (make_dir path ∷ es) = volume es
volume (write path bytes ∷ es) = length bytes + volume es

abbrev pub count : List Effect → ℕ
count [] = 0
count (e ∷ es) = count es + 1

length-take : (n : ℕ) (s : Text) → length (take n s) ≤ n
length-take zero s = omega arith
length-take (suc n) [] = omega arith
length-take (suc n) (c ∷ s) = omega (arith, length-take n s)

-- The variables of the loop keep count, and are within the limits.
pub record IsCounted (lim : Limits) (p : Progress) : Type 0 where
  pub bytes : volume p.effects ≡ p.written
  pub small : p.written ≤ lim.max_bytes
  pub effects : count p.effects ≤ p.entries
  pub few : p.entries ≤ lim.max_entries

-- What holds of a step's outcome, whether it ends the loop or not.
pub record IsBounded (lim : Limits) (o : Outcome) : Type 0 where
  pub bytes : volume o.0.effects ≤ lim.max_bytes + 1
  pub effects : count o.0.effects ≤ lim.max_entries
  pub counted : o.1 ≡ none → IsCounted lim o.0

-- Within the body of the loop, one entry is counted whose effect is to come.
pub record IsOpen (lim : Limits) (p : Progress) : Type 0 where
  pub bytes : volume p.effects ≡ p.written
  pub small : p.written ≤ lim.max_bytes
  pub effects : count p.effects + 1 ≤ p.entries
  pub few : p.entries ≤ lim.max_entries

module _ (refuses : Text → Bool) (lim : Limits) where
  -- A body that ends the loop, and one that goes on without an effect.
  pub ended-IsBounded : (p : Progress) (x : ArchiveError) → IsOpen lim p → IsBounded lim (p, some x)
  ended-IsBounded p x h = record {
    bytes = let a = h.bytes in let b = h.small in omega arith;
    effects = let a = h.effects in let b = h.few in omega arith;
    counted = λ k. absurd (cc);
  }

  pub skipped-IsBounded : (p : Progress) → IsOpen lim p → IsBounded lim (p, none)
  skipped-IsBounded p h = record {
    bytes = let a = h.bytes in let b = h.small in omega arith;
    effects = let a = h.effects in let b = h.few in omega arith;
    counted = λ k. record {
      bytes = h.bytes;
      small = h.small;
      effects = let a = h.effects in omega arith;
      few = h.few;
    };
  }

  pub write_file-IsBounded :
      (src : Content) (target : Text) (p : Progress)
      → IsOpen lim p
      → IsBounded lim (write_file refuses lim src target p)
  unfolding write_file
  write_file-IsBounded src target p h = elim (Bool-cases (refuses target)) [
    | inl b ↦ rw b (ended-IsBounded p refused h)
    | inr b ↦
        rw b
          (elim (Bool-cases
            (not src.intact && leb (length src.bytes) (lim.max_bytes - p.written))) [
              | inl k ↦ rw k (failed bad_archive)
              | inr k ↦ rw k (elim (Bool-cases (ltb lim.max_bytes (p.written + length copied))) [
                | inl m ↦ rw m (failed too_large)
                | inr m ↦ rw m (written m)
              ])
            ])
  ]
    where
      copied : Text
      copied = take (lim.max_bytes - p.written + 1) src.bytes

      after : Progress
      after = record p { effects = write target copied ∷ p.effects }

      room : length copied + volume p.effects ≤ lim.max_bytes + 1
      room =
          let a = h.bytes in
          let b = h.small in
          let c : length copied ≤ lim.max_bytes - p.written + 1 =
            length-take (lim.max_bytes - p.written + 1) src.bytes in
          omega arith

      failed : (x : ArchiveError) → IsBounded lim (after, some x)
      failed x = record {
        bytes = room;
        effects = let a = h.effects in let b = h.few in omega arith;
        counted = λ k. absurd (cc);
      }

      written :
          ltb lim.max_bytes (p.written + length copied) ≡ false
          → IsBounded lim (record after { written = p.written + length copied }, none)
      written m = record {
        bytes = room;
        effects = let a = h.effects in let b = h.few in omega arith;
        counted = λ k. record {
          bytes = let a = h.bytes in omega arith;
          small = ground arith;
          effects = let a = h.effects in omega arith;
          few = h.few;
        };
      }

  pub extract_kind-IsBounded :
      (k : TarKind) (e : TarEntry) (target : Text) (p : Progress)
      → IsOpen lim p
      → IsBounded lim (extract_kind refuses lim k e target p)
  unfolding extract_kind
  extract_kind-IsBounded directory e target p h = elim (Bool-cases (refuses target)) [
    | inl b ↦ rw b (ended-IsBounded p refused h)
    | inr b ↦ rw b (record {
      bytes = let a = h.bytes in let c = h.small in omega arith;
      effects = let a = h.effects in let c = h.few in omega arith;
      counted = λ k. record { bytes = h.bytes; small = h.small; effects = h.effects; few = h.few };
    })
  ]
  extract_kind-IsBounded regular e target p h =
      write_file-IsBounded e.content target
        (record p { has_index = p.has_index || text_eq (clean_rel e.name) (codes "index.html") })
        (record { bytes = h.bytes; small = h.small; effects = h.effects; few = h.few })
  extract_kind-IsBounded symbolic_link e target p h = ended-IsBounded p unsupported h
  extract_kind-IsBounded hard_link e target p h = ended-IsBounded p unsupported h
  extract_kind-IsBounded other_kind e target p h = skipped-IsBounded p h
