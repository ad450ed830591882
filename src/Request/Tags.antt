-- ===== src/Request/Tags.antt =====
-- The tags of a request: `rendered_tags` of config/models.py and `resolve_tags` of
-- tagging/governance.py. The tags that policies/tagging.yaml has for all are an argument.
use db_platform.Base.{String, List, [], ◌∷◌}
use db_platform.Base.Dict.{put, set_default}
use db_platform.Request.{DatabaseRequest, environment_name, classification_name}

abbrev pub required_tag_keys : List String
required_tag_keys =
    "application" ∷ "environment" ∷ "owner" ∷ "managed_by" ∷ "cost_center" ∷ "data_classification"
    ∷ []

unfoldable pub base_tags : DatabaseRequest → List (String × String)
unfolding environment_name classification_name
base_tags request =
    ("application", request.metadata.name)
    ∷ ("environment", environment_name request.metadata.environment)
    ∷ ("owner", request.metadata.owner)
    ∷ ("managed_by", "dbre-platform")
    ∷ ("cost_center", request.metadata.cost_center)
    ∷ ("data_classification", classification_name request.metadata.data_classification)
    ∷ []

-- The loop over the tags of the request.
unfoldable pub add_defaults :
    List (String × String) → List (String × String) → List (String × String)
unfolding set_default
add_defaults tags [] = tags
add_defaults tags ((key, value) ∷ more) = add_defaults (set_default key value tags) more

unfoldable pub rendered_tags : DatabaseRequest → List (String × String)
unfolding add_defaults base_tags
rendered_tags request = add_defaults (base_tags request) request.spec.tags

-- `tags.update(more)`
unfoldable pub update : List (String × String) → List (String × String) → List (String × String)
unfolding put
update tags [] = tags
update tags ((key, value) ∷ more) = update (put key value tags) more

unfoldable pub resolve_tags : List (String × String) → DatabaseRequest → List (String × String)
unfolding update rendered_tags
resolve_tags global_tags request =
    update (update request.spec.tags global_tags) (rendered_tags request)
