-- ===== src/Mcp/Reading/Tools.antt =====
-- internal/mcpserver/read.go: the tools that read a file and search a site, put together.
use gotifacts.Prelude.{Option, none, some, Result, ok, err, Bool, [], if◌then◌else◌}
use gotifacts.Prelude.Int.{ℤ}
use gotifacts.Text.{Text, text_eq, to_lower, join}
use gotifacts.Auth.{Principal}
use gotifacts.SiteFs.{walk}
use gotifacts.Ingest.{Published}
use gotifacts.Mcp.Reading.{
  ReadError, file_not_found, binary_file, empty_query, ReadTarget, authorize_read,
  resolve_read_path, clamp_limit, walk_error,
}
use gotifacts.Mcp.Reading.Chunk.{Page, read_chunk}
use gotifacts.Mcp.Reading.Search.{Found, search_all}

module _ (is_text : Text → Text × Bool) (p : Published) (mcp_group : Text) (who : Option Principal)
    (group slug : Text) where
  -- readFile
  unfoldable pub read_file : Text → ℤ → ℤ → Result ReadError Page
  read_file path offset limit = elim (authorize_read p mcp_group who group slug) [
    | err e ↦ err e
    | ok t ↦ elim (resolve_read_path p.disk t.dir path) [
      | none ↦ err file_not_found
      | some (rel, bytes) ↦
          elim (read_chunk is_text (join b'/' rel) bytes offset (clamp_limit limit 65536 262144)) [
            | err e ↦ err binary_file
            | ok page ↦ ok page
          ]
    ]
  ]

  -- The walk of `searchSite`, once the call is checked.
  unfoldable pub search_target : ReadTarget → Text → Text → ℤ → Result ReadError Found
  search_target t query prefix max_results = elim (walk p.disk t.dir prefix) [
    | err e ↦ err (walk_error prefix)
    | ok es ↦ ok (search_all (to_lower query) (clamp_limit max_results 50 200) is_text es)
  ]

  -- searchSite
  unfoldable pub search_site : Text → Text → ℤ → Result ReadError Found
  search_site query prefix max_results = elim (authorize_read p mcp_group who group slug) [
    | err e ↦ err e
    | ok t ↦ if text_eq query [] then err empty_query else search_target t query prefix max_results
  ]
