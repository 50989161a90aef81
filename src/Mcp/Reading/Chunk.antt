-- ===== src/Mcp/Reading/Chunk.antt =====
-- internal/mcpserver/read.go: one page of a text file. The test for text is a parameter: it is
-- IsText of internal/sitefs with the content sniffing of `net/http`.
use gotifacts.Prelude.{
  ℕ, zero, suc, ◌+◌, ◌-◌, Bool, not, [], ◌∷◌, ltb, leb, if◌then◌else◌, Result, ok, err, length,
  take, drop,
}
use gotifacts.Prelude.Int.{ℤ, pos_part}
use gotifacts.Text.{Text}
use gotifacts.Text.Utf8.{utf_max, rune_start, valid, trim_last}

-- readFileOutput
pub record Page : Type 0 where
  pub path : Text
  pub content_type : Text
  pub size : ℕ
  pub offset : ℕ
  pub next_offset : ℕ
  pub truncated : Bool
  pub content : Text

-- binaryError
pub data ChunkError : Type 0 where
  binary : Text → Text → ChunkError

-- trimIncompleteRune
unfoldable pub trim_incomplete_rune : Text → Text
trim_incomplete_rune b = trim_last utf_max (length b) b

-- The loop of `readChunk` that looks for the start of a rune.
unfoldable pub skip_count : ℕ → Text → ℕ
skip_count zero s = 0
skip_count (suc n) [] = 0
skip_count (suc n) (c ∷ s) = let rest = skip_count n s in if rune_start c then 0 else suc rest

abbrev pub least : ℕ → ℕ → ℕ
least a b = if leb a b then a else b

abbrev pub most : ℕ → ℕ → ℕ
most a b = if leb a b then b else a

-- The offset that a call asks for, within the file.
unfoldable pub asked : ℤ → Text → ℕ
asked offset bytes = least (pos_part offset) (length bytes)

-- The bytes that are read, those of a broken rune at the start, and where they stand.
unfoldable pub skipped : ℕ → ℕ → Text → ℕ
skipped from limit bytes =
    let buf = take (most limit utf_max) (drop from bytes) in
    if ltb 0 from then skip_count (utf_max - 1) buf else 0

-- The bytes of a page.
unfoldable pub page_bytes : ℕ → ℕ → Text → Text
page_bytes from limit bytes =
    let skip = skipped from limit bytes in
    let buf = drop skip (take (most limit utf_max) (drop from bytes)) in
    if ltb (from + skip + length buf) (length bytes) then trim_incomplete_rune buf else buf

module _ (is_text : Text → Text × Bool) where
  -- readChunk, on a file that can be read
  unfoldable pub read_chunk : Text → Text → ℤ → ℕ → Result ChunkError Page
  read_chunk rel bytes offset limit =
      let (content_type, text) = is_text (take 512 bytes) in
      let from = asked offset bytes in
      let buf = page_bytes from limit bytes in
      let at = from + skipped from limit bytes in
      if not text
      then err (binary rel content_type)
      else if not (valid buf)
      then err (binary rel content_type)
      else ok (record {
        path = rel;
        content_type = content_type;
        size = length bytes;
        offset = at;
        next_offset = at + length buf;
        truncated = ltb (at + length buf) (length bytes);
        content = buf;
      })
