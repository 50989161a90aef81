-- ===== src/Mcp/Reading/Paging.antt =====
-- internal/mcpserver/read.go: what a page of a file holds, and that the pages of a file go on.
mod Cutting
mod Trimming
use gotifacts.Prelude.{
  ℕ, ◌+◌, ◌-◌, ◌≤◌, ◌<◌, ◌≡◌, refl, sym, ap, ◌∙◌, subst, Bool, true, false, ◌++◌, arith, All,
  Bool-cases, inl, inr, ◌⊎◌, tests, Result, ok, length, take, drop, ltb, if◌then◌else◌,
  append_assoc, length-append,
}
use Prim.Native.Nat.add
use gotifacts.Prelude.Int.{ℤ}
use gotifacts.Text.{Text}
use gotifacts.Text.Utf8.{utf_max, rune_start, valid}
use gotifacts.Mcp.Reading.Chunk.{
  Page, ChunkError, read_chunk, trim_incomplete_rune, asked, skipped, page_bytes, most,
}
use Cutting.{
  take-append-drop, length-take-le, length-drop, take-length, drop-drop, drop-append,
  length-take-short, length-take-le-length, take-take,
}
use Trimming.{
  Nat-cases, full_rune_of_four, trim_last-take, trim_last-pos, skip_count-le, skip_count-le-length,
  skip_count-continues,
}

le-or-lt : (a b : ℕ) → (a ≤ b) ⊎ (b < a)
le-or-lt a b = ground arith

-- What a page is: whole, in its place, and behind what was asked for unless the file is read.
pub record IsPage (offset : ℤ) (limit : ℕ) (bytes : Text) (page : Page) : Type 0 where
  pub sized : page.size ≡ length bytes
  pub next : page.next_offset ≡ page.offset + length page.content
  pub rest : Text
  pub placed : drop page.offset bytes ≡ page.content ++ rest
  pub inside : page.next_offset ≤ length bytes
  pub ends : page.truncated ≡ ltb page.next_offset (length bytes)
  pub start : asked offset bytes ≤ page.offset
  pub passed_over : page.offset ≤ asked offset bytes + 3
  pub continued :
      All
        (λ c. rune_start c ≡ false)
        (take (page.offset - asked offset bytes) (drop (asked offset bytes) bytes))
  pub bounded : length page.content ≤ most limit 4
  pub whole : valid page.content ≡ true
  pub progress : page.truncated ≡ true → asked offset bytes < page.next_offset

module _ (from limit : ℕ) (bytes : Text) (in_file : from ≤ length bytes) where
  abbrev buffer : Text
  buffer = take (most limit utf_max) (drop from bytes)

  abbrev skip : ℕ
  skip = skipped from limit bytes

  abbrev at_start : Text
  at_start = drop skip buffer

  skip-le : (skip ≤ 3) × (skip ≤ length buffer)
  unfolding skipped
  skip-le = elim (Bool-cases (ltb 0 from)) [
    | inl e ↦ rw (e, skipped) (skip_count-le 3 buffer, skip_count-le-length 3 buffer)
    | inr e ↦ rw (e, skipped) (omega arith, omega arith)
  ]

  skip-continues : All (λ c. rune_start c ≡ false) (take skip buffer)
  unfolding skipped
  skip-continues = elim (Bool-cases (ltb 0 from)) [
    | inl e ↦ rw (e, skipped) (skip_count-continues 3 buffer)
    | inr e ↦ rw (e, skipped) tt
  ]

  four-le : 4 ≤ most limit utf_max
  four-le = ground arith

  -- The bytes that were read, and those behind them.
  read-placed : drop (from + skip) bytes ≡ at_start ++ drop (most limit utf_max) (drop from bytes)
  read-placed =
      drop-drop from skip bytes
      ∙ ap (drop skip) (sym (take-append-drop (most limit utf_max) (drop from bytes)))
      ∙ drop-append skip buffer (drop (most limit utf_max) (drop from bytes)) skip-le.1

  cut_off : Bool
  cut_off = ltb (from + skip + length at_start) (length bytes)

  page-of-cut :
      page_bytes from limit bytes ≡ (if cut_off then trim_incomplete_rune at_start else at_start)
  unfolding page_bytes cut_off
  page-of-cut = refl

  page-part : (k : ℕ) × (page_bytes from limit bytes ≡ take k at_start)
  unfolding page_bytes trim_incomplete_rune
  page-part = elim (Bool-cases (ltb (from + skip + length at_start) (length bytes))) [
    | inl e ↦
        let (k, t) = trim_last-take utf_max (length at_start) at_start in (k, rw (e, page_bytes) t)
    | inr e ↦ (length at_start, rw (e, page_bytes) (sym (take-length at_start)))
  ]

  page-placed : (rest : Text) × (drop (from + skip) bytes ≡ page_bytes from limit bytes ++ rest)
  page-placed =
      let (k, e) = page-part in
      (
        drop k at_start ++ drop (most limit utf_max) (drop from bytes),
        read-placed ∙ rw (e, ← append_assoc, take-append-drop k at_start) refl,
      )

  skip-in_file : from + skip ≤ length bytes
  skip-in_file = omega (
    arith,
    skip-le.1,
    length-drop from bytes in_file,
    length-take-le-length (most limit utf_max) (drop from bytes),
  )

  page-inside : from + skip + length (page_bytes from limit bytes) ≤ length bytes
  page-inside =
      let (rest, e) = page-placed in
      omega (
        arith,
        length-drop (from + skip) bytes skip-in_file,
        ap length e,
        length-append (page_bytes from limit bytes) rest,
      )

  page-bounded : length (page_bytes from limit bytes) ≤ most limit 4
  page-bounded =
      let (k, e) = page-part in
      rw e (
        omega (
          arith,
          length-take-le-length k at_start,
          length-drop skip buffer skip-le.1,
          length-take-le (most limit utf_max) (drop from bytes),
        ))

  page-continues : All (λ c. rune_start c ≡ false) (take (from + skip - from) (drop from bytes))
  page-continues =
      let n : from + skip - from ≡ skip = omega arith in
      rw (n, ← take-take skip (most limit utf_max) (drop from bytes) skip-le.1) skip-continues

  -- Unless the end of the file was read, the buffer was filled.
  filled : cut_off ≡ true → skip ≡ 0 → 4 ≤ length at_start
  unfolding cut_off
  filled more at_once = elim (le-or-lt (most limit utf_max) (length buffer)) [
    | inl full ↦ omega (arith, four-le, length-drop skip buffer skip-le.1)
    | inr short ↦ absurd (
        omega (
          tests,
          length-drop skip buffer skip-le.1,
          length-take-short (most limit utf_max) (drop from bytes) short,
          length-drop from bytes in_file,
        ))
  ]

  cut-pos : 4 ≤ length at_start → 1 ≤ length (trim_incomplete_rune at_start)
  unfolding trim_incomplete_rune
  cut-pos h =
      trim_last-pos utf_max (length at_start) at_start (omega arith) (full_rune_of_four at_start h)

  -- A page that is not the last one goes on.
  page-progress :
      ltb (from + skip + length (page_bytes from limit bytes)) (length bytes) ≡ true
      → from < from + skip + length (page_bytes from limit bytes)
  unfolding cut_off
  page-progress more = elim (Nat-cases skip) [
    | inr some_skipped ↦ omega arith
    | inl at_once ↦ elim (Bool-cases cut_off) [
      | inl cut ↦
          let e : page_bytes from limit bytes ≡ trim_incomplete_rune at_start =
            page-of-cut ∙ ap (λ b. if b then trim_incomplete_rune at_start else at_start) cut in
          omega (arith, ap length e, cut-pos (filled cut at_once))
      | inr uncut ↦
          let e : page_bytes from limit bytes ≡ at_start =
            page-of-cut ∙ ap (λ b. if b then trim_incomplete_rune at_start else at_start) uncut in
          absurd (
            ground (
              arith,
              subst (λ (l : Text). ltb (from + skip + length l) (length bytes) ≡ true) e more,
            ))
    ]
  ]

-- A page that `readChunk` returns holds valid text, which is the bytes of the file from its offset
-- to the next one. It begins where the call asked for, but for at most three bytes that continue a
-- rune, ends within the file, and says whether the file goes on; if it does, the next offset is
-- behind the one that was asked for, so that a client that follows it comes to the end.
pub read_chunk-IsPage :
    (is_text : Text → Text × Bool) (rel bytes : Text) (offset : ℤ) (limit : ℕ) (page : Page)
    → read_chunk is_text rel bytes offset limit ≡ ok page
    → IsPage offset limit bytes page
unfolding read_chunk
read_chunk-IsPage is_text rel bytes offset limit page h =
    elim (Bool-cases (is_text (take 512 bytes)).1) [
      | inr e ↦ absurd (cc (rw e at h))
      | inl e ↦ elim (Bool-cases (valid (page_bytes (asked offset bytes) limit bytes))) [
        | inr v ↦ absurd (cc (rw (e, v) at h))
        | inl v ↦ subst (IsPage offset limit bytes) (returned (rw (e, v) at h)) (made v)
      ]
    ]
  where
    from : ℕ
    from = asked offset bytes

    in_file : from ≤ length bytes
    in_file = unfold asked in (ground arith)

    built : Page
    built = record {
      path = rel;
      content_type = (is_text (take 512 bytes)).0;
      size = length bytes;
      offset = from + skipped from limit bytes;
      next_offset = from + skipped from limit bytes + length (page_bytes from limit bytes);
      truncated =
          ltb (from + skipped from limit bytes + length (page_bytes from limit bytes))
            (length bytes);
      content = page_bytes from limit bytes;
    }

    returned : ◌≡◌ {A = Result ChunkError Page} (ok built) (ok page) → built ≡ page
    returned k = cc

    made : valid (page_bytes from limit bytes) ≡ true → IsPage offset limit bytes built
    made v = record {
      sized = refl;
      next = refl;
      rest = (page-placed from limit bytes in_file).0;
      placed = (page-placed from limit bytes in_file).1;
      inside = page-inside from limit bytes in_file;
      ends = refl;
      start = omega arith;
      passed_over = omega (arith, (skip-le from limit bytes in_file).0);
      continued = page-continues from limit bytes in_file;
      bounded = page-bounded from limit bytes in_file;
      whole = v;
      progress = page-progress from limit bytes in_file;
    }
