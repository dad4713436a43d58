-- ===== src/Text.antt =====
-- What the source uses of the packages strings and path/filepath, as a parameter, and `splitCSV` of
-- cmd/syncbridge/main.go.
use sync_bridge.Base.{String, Bool, Option, List, [], ◌∷◌, ◌==◌, string_keyed, if◌then◌else◌}

pub record GoText : Type 0 where
  pub trim_space : String → String
  pub split_comma : String → List String
  pub has_dash : String → Bool
  pub file_base : String → String
  pub file_dir : String → String
  pub glob_match : String → String → Bool
  pub clean : String → String
  pub rel : String → String → Option String

-- The pieces that are not empty, trimmed.
abbrev pub trimmed_pieces : GoText → List String → List String
trimmed_pieces go [] = []
trimmed_pieces go (piece ∷ more) =
    let rest = trimmed_pieces go more in
    if go.trim_space piece == "" then rest else go.trim_space piece ∷ rest

unfoldable pub split_csv : GoText → String → List String
split_csv go s = trimmed_pieces go (go.split_comma s)
