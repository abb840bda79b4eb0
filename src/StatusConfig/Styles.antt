-- ===== src/StatusConfig/Styles.antt =====
-- The table of styles and the order of severity belong to the same statuses.
use etl_nexus.Common.{false, String, List, [], ◌∷◌, has, has_same, IsSetLike, ◌≡◌, ◌∙◌, refl, arith}
use etl_nexus.StatusConfig.{
  StatusStyle, status_config, style_or, get_status_style, unknown_style, status_severity_order,
}

abbrev pub statuses_of : List (String × StatusStyle) → List String
statuses_of [] = []
statuses_of ((key, style) ∷ entries) = key ∷ statuses_of entries

style_or-has :
    (default : StatusStyle) (status : String) (entries : List (String × StatusStyle))
    → has status (statuses_of entries) ≡ false
    → style_or default status entries ≡ default
unfolding style_or has
style_or-has default status [] h = refl
style_or-has default status ((key, style) ∷ entries) h =
    ground (arith, style_or-has default status entries)

severity_order-IsSetLike : IsSetLike status_severity_order
unfolding has
severity_order-IsSetLike = (
  refl,
  (
    refl,
    (
      refl,
      (refl, (refl, (refl, (refl, (refl, (refl, (refl, (refl, (refl, (refl, (refl, tt))))))))))),
    ),
  ),
)

same_statuses :
    (status : String) → has status (statuses_of status_config) ≡ has status status_severity_order
unfolding has
same_statuses status = has_same status (statuses_of status_config) status_severity_order refl refl

-- A status has a style of its own just if it stands in the order of severity, where none stands
-- twice; any other status has the style of "unknown".
pub get_status_style_covered :
    (status : String)
    → (has status (statuses_of status_config) ≡ has status status_severity_order)
      × (IsSetLike status_severity_order
          × (has status status_severity_order ≡ false → get_status_style status ≡ unknown_style))
unfolding get_status_style
get_status_style_covered status = (
  same_statuses status,
  (
    severity_order-IsSetLike,
    λ h. style_or-has unknown_style status status_config (same_statuses status ∙ h),
  ),
)
