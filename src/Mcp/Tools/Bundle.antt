-- ===== src/Mcp/Tools/Bundle.antt =====
-- internal/mcpserver/mcpserver.go: the files of a call of publish_site, made into an archive. The
-- decoder of base64 is a parameter.
use gotifacts.Prelude.{
  ℕ, ◌+◌, Bool, false, not, ◌||◌, List, [], ◌∷◌, ◌++◌, Option, none, some, ltb, if◌then◌else◌,
  Result, ok, err, length, reverse, ◌>>=◌, ◌>>◌, fail_if,
}
use gotifacts.Text.{
  Text, codes, text_eq, has_prefix, trim_space, to_lower, split, join, replace_byte, contains_text,
}
use gotifacts.Archive.{TarStream}
use gotifacts.Archive.Writing.{NamedFile, write_tar_gz}

-- publishFile
pub record PublishFile : Type 0 where
  pub path : Text
  pub content : Text
  pub encoding : Text

pub data BundleError : Type 0 where
  invalid_file_path duplicate_path files_too_large missing_index bad_base64 unknown_encoding :
      BundleError

-- What "..", in a path that is not rooted, does to the parts kept.
unfoldable pub step_back : List Text → List Text
step_back [] = codes ".." ∷ []
step_back (q ∷ qs) = if text_eq q (codes "..") then codes ".." ∷ q ∷ qs else qs

-- The loop of path.Clean over the parts of a path that is not rooted, kept in reverse.
unfoldable pub resolve_relative : List Text → List Text → List Text
resolve_relative kept [] = kept
resolve_relative kept (p ∷ ps) =
    resolve_relative
      (if text_eq p [] || text_eq p (codes ".")
        then kept
        else if text_eq p (codes "..")
        then step_back kept
        else p ∷ kept)
      ps

-- path.Clean of a path that is not rooted
unfoldable pub clean_relative : Text → Text
clean_relative path =
    let parts = reverse (resolve_relative [] (split b'/' path)) in
    if text_eq (join b'/' parts) [] then codes "." else join b'/' parts

-- Whether a file of that name is among those.
unfoldable pub is_seen : List NamedFile → Text → Bool
is_seen [] rel = false
is_seen (n ∷ ns) rel = text_eq n.name rel || is_seen ns rel

module _ (decode_base64 : Text → Option Text) where
  -- decodeContent
  unfoldable pub decode_content : PublishFile → Result BundleError Text
  decode_content f =
      let encoding = to_lower (trim_space f.encoding) in
      if contains_text ([] ∷ codes "utf8" ∷ codes "utf-8" ∷ codes "text" ∷ []) encoding
      then ok f.content
      else if text_eq encoding (codes "base64")
      then elim (decode_base64 (trim_space f.content)) [
        | none ↦ err bad_base64
        | some bytes ↦ ok bytes
      ]
      else err unknown_encoding

  -- The checks of `buildBundle` on the path of a file.
  unfoldable pub bundle_path : List NamedFile → PublishFile → Result BundleError Text
  bundle_path named f =
      let norm = replace_byte b'\\' b'/' f.path in
      let rel = clean_relative norm in
      do
        fail_if (text_eq norm [] || has_prefix norm (codes "/")) invalid_file_path
        fail_if
            (text_eq rel (codes ".") || text_eq rel (codes "..") || has_prefix rel (codes "../"))
            invalid_file_path
        fail_if (is_seen named rel) duplicate_path
        ok rel

  -- The loop of `buildBundle`, with the files that are named so far and their bytes.
  unfoldable pub bundle_files :
      ℕ → List PublishFile → List NamedFile → ℕ → Result BundleError (List NamedFile)
  bundle_files max_bytes [] named total = ok named
  bundle_files max_bytes (f ∷ fs) named total = do
    rel ← bundle_path named f
    bytes ← decode_content f
    fail_if (ltb max_bytes (total + length bytes)) files_too_large
    bundle_files max_bytes fs (named ++ record { name = rel; bytes = bytes } ∷ [])
        (total + length bytes)

  unfoldable pub has_index : List NamedFile → Bool
  has_index [] = false
  has_index (f ∷ fs) = text_eq f.name (codes "index.html") || has_index fs

  -- buildBundle
  unfoldable pub build_bundle : List PublishFile → ℕ → Result BundleError TarStream
  build_bundle files max_bytes = do
    named ← bundle_files max_bytes files [] 0
    fail_if (not (has_index named)) missing_index
    ok (write_tar_gz named)
