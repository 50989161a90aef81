-- ===== src/Mcp/Reading/Search.antt =====
-- internal/mcpserver/read.go: the search of a site's text files.
use gotifacts.Prelude.{
  ℕ, ◌+◌, ◌-◌, Bool, true, false, not, ◌||◌, List, [], ◌∷◌, ◌++◌, ltb, leb, ◌==◌, if◌then◌else◌,
  length, take,
}
use gotifacts.Text.{Text, to_lower, contains, trim_space, trim_suffix, split}
use gotifacts.Text.Utf8.{to_valid, rune_count, take_runes}
use gotifacts.SiteFs.{Entry}

-- searchMatch
pub record Match : Type 0 where
  pub path : Text
  pub line : ℕ
  pub text : Text

-- searchSiteOutput
pub record Found : Type 0 where
  pub matches : List Match
  pub truncated : Bool

-- The last line of a text, if it is empty, is no line.
unfoldable pub drop_last_empty : List Text → List Text
drop_last_empty [] = []
drop_last_empty ([] ∷ []) = []
drop_last_empty ((c ∷ s) ∷ []) = (c ∷ s) ∷ []
drop_last_empty (s ∷ t ∷ rest) = s ∷ drop_last_empty (t ∷ rest)

unfoldable pub without_cr : List Text → List Text
without_cr [] = []
without_cr (s ∷ rest) = trim_suffix s (13 ∷ []) ∷ without_cr rest

-- bufio.ScanLines
unfoldable pub scan_lines : Text → List Text
scan_lines bytes = without_cr (drop_last_empty (split 10 bytes))

-- searchMaxLineText
abbrev max_line_text : ℕ
max_line_text = 300

-- trimLine; the last three bytes are an ellipsis
unfoldable pub trim_line : Text → Text
unfolding to_valid rune_count take_runes
trim_line line =
    let s = to_valid (trim_space line) in
    if leb (rune_count s) max_line_text
    then s
    else take_runes (max_line_text - 1) s ++ 0xe2 ∷ 0x80 ∷ 0xa6 ∷ []

-- What a loop leaves, and whether errStopWalk ends it.
abbrev pub Scan : Type 0
Scan = Found × Bool

module _ (needle : Text) (max_results : ℕ) where
  -- The loop of `searchFile` over the lines, with the number of the current one.
  unfoldable pub search_lines : Text → ℕ → List Text → Found → Scan
  search_lines rel n [] out = (out, false)
  search_lines rel n (line ∷ rest) out =
      let passed = search_lines rel (n + 1) rest out in
      let matched = search_lines rel (n + 1) rest (record out {
        matches = out.matches ++ record { path = rel; line = n; text = trim_line line } ∷ [];
      }) in
      if not (contains (to_lower line) needle)
      then passed
      else if leb max_results (length out.matches)
      then (record out { truncated = true }, true)
      else matched

  module _ (is_text : Text → Text × Bool) where
    -- searchFile, with the sizes that `searchSite` passes over
    unfoldable pub search_file : Entry → Found → Scan
    search_file e out =
        if length e.bytes == 0 || ltb 2097152 (length e.bytes)
        then (out, false)
        else if not (is_text (take 512 e.bytes)).1
        then (out, false)
        else search_lines e.rel 1 (scan_lines e.bytes) out

    -- The walk of `searchSite`; it ends with errStopWalk.
    unfoldable pub search_entries : List Entry → Found → Found
    search_entries [] out = out
    search_entries (e ∷ es) out =
        let (out', stop) = search_file e out in
        let rest = search_entries es out' in if stop then out' else rest

    -- searchSite, on the files that the walk finds
    unfoldable pub search_all : List Entry → Found
    search_all es = search_entries es (record { matches = []; truncated = false })
