-- ===== src/Kernel/Rules/Origins.antt =====
-- Selection of content by origin: `selected_origin`, `covers_content_items`, `discloses_content` and
-- `validate_origin_selectors` (content.rs).
use changekernel.Base.{
  List, [], ◌∷◌, ◌++◌, Option, none, some, Bool, false, ◌&&◌, ◌||◌, Result, ok, reject_if, ◌>>◌,
}
use changekernel.Base.Order.{◌==◌, ◌!=◌, nat_eq, option_eq}
use changekernel.Base.Lists.{any, all}
use changekernel.Base.BTreeSet.{BTreeSet, contains}
use changekernel.Base.BTreeMap.{get}
use changekernel.Kernel.Ids.{Error, id_eq}
use changekernel.Kernel.Keys.{
  ContentKey, change_key, change_key_eq, content_key_ord, grant_target_eq, identity_eq,
}
use changekernel.Kernel.Content.{ContentOrigin, OriginSelector, RecordedContent, content_origin_eq}
use changekernel.Kernel.Model.Grants.{Grant, GrantSpec}
use changekernel.Kernel.State.{State, Validation}

unfoldable pub selects : Grant → ContentOrigin → OriginSelector → Bool
selects g origin OriginSelector.current_grant =
    origin.grant.id == g.id
    && (origin.grant.generation == g.generation && origin.target == g.spec.target)
selects g origin (OriginSelector.historical exact) = origin == exact

abbrev pub selected_record : State → Grant → BTreeSet OriginSelector → Option RecordedContent → Bool
selected_record s g selectors none = false
selected_record s g selectors (some recorded) =
    recorded.origin.binding.identity == s.identity && any (selects g recorded.origin) selectors

unfoldable pub selected_origin : State → ContentKey → Grant → BTreeSet OriginSelector → Bool
selected_origin s id g selectors = selected_record s g selectors (get s.created id)

unfoldable pub covers_content_items : State → Grant → Validation → Bool
covers_content_items s g v =
    all
      (λ id.
        contains v.fresh id
        || (contains g.spec.content_items id || selected_origin s id g g.spec.content_origins))
      v.content_items

unfoldable pub discloses_content : State → Grant → ContentKey → Bool
discloses_content s g id =
    contains g.spec.disclosure id || selected_origin s id g g.spec.disclosure_origins

abbrev pub origin_of : Option RecordedContent → Option ContentOrigin
origin_of none = none
origin_of (some r) = some r.origin

unfoldable pub validate_selector : State → OriginSelector → Result Error (Unit {0})
validate_selector s OriginSelector.current_grant = ok tt
validate_selector s (OriginSelector.historical origin) = do
  reject_if (origin.binding.content.establishing != change_key s.identity) Error.unavailable
  reject_if
      (origin.binding.identity != s.identity
        || origin_of (get s.created origin.binding.content) != some origin)
      Error.denied

unfoldable pub validate_selectors : State → List OriginSelector → Result Error (Unit {0})
validate_selectors s [] = ok tt
validate_selectors s (selector ∷ rest) = do validate_selector s selector; validate_selectors s rest

unfoldable pub validate_origin_selectors : State → GrantSpec → Result Error (Unit {0})
validate_origin_selectors s spec =
    validate_selectors s (spec.content_origins ++ spec.disclosure_origins)
