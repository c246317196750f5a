-- ===== src/Operations/Merge.antt =====
-- `_merge_locators` of services/operations.py.
use gemini_web_mcp.Common.{
  String, Bool, false, not, ◌&&◌, Option, none, some, List, [], ◌∷◌, map, if◌then◌else◌, Dict,
  lookup, insert, ◌==◌,
}
use gemini_web_mcp.Store.Records.{ArtifactLocator}

-- `bool(text)` of an optional text
abbrev pub is_truthy : Option String → Bool
is_truthy none = false
is_truthy (some text) = not (text == "")

-- `item.uri or old.uri`
abbrev pub uri_or : Option String → Option String → Option String
uri_or none d = d
uri_or (some uri) d = if uri == "" then d else some uri

-- A verified local copy is kept when the news of it has no local path.
unfoldable pub merged_item : Option ArtifactLocator → ArtifactLocator → ArtifactLocator
merged_item none item = item
merged_item (some old) item =
    if is_truthy old.local_path && old.verification == "verified" && not (is_truthy item.local_path)
    then record old { uri = uri_or item.uri old.uri }
    else item

-- `{item.id: item for item in existing}`
unfoldable pub by_id : Dict ArtifactLocator → List ArtifactLocator → Dict ArtifactLocator
unfolding insert
by_id d [] = d
by_id d (item ∷ items) = by_id (insert item.id item d) items

-- `for item in incoming: …`
unfoldable pub merge_all : Dict ArtifactLocator → List ArtifactLocator → Dict ArtifactLocator
unfolding insert lookup merged_item
merge_all d [] = d
merge_all d (item ∷ items) =
    merge_all (insert item.id (merged_item (lookup item.id d) item) d) items

-- `d.values()`
abbrev pub locators : Dict ArtifactLocator → List ArtifactLocator
locators d = map (λ (entry : String × ArtifactLocator). entry.1) d

unfoldable pub merge_locators : List ArtifactLocator → List ArtifactLocator → List ArtifactLocator
unfolding by_id merge_all
merge_locators existing incoming = locators (merge_all (by_id [] existing) incoming)
