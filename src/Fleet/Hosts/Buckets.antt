-- ===== src/Fleet/Hosts/Buckets.antt =====
-- The buckets of the risk page, web/src/routes/_authed/fleet/risk.tsx.
use sigil_manager.Prelude.{String, Bool, some, List, [], ◌∷◌, map}
use sigil_manager.Api.Fleet.{Bucket, low, medium, high, critical, bucket_text}
use sigil_manager.Alerts.Search.{bucket_beq}
use sigil_manager.Fleet.Hosts.{RiskSearch, RiskFilter}

abbrev pub valid_buckets : List Bucket
valid_buckets = low ∷ medium ∷ high ∷ critical ∷ []

pub record BucketButton : Type 0 where
  pub label : String
  pub pressed : Bool
  pub chooses : Bucket

unfoldable pub bucket_buttons : RiskFilter → List BucketButton
bucket_buttons f =
    map (λ b. record { label = bucket_text b; pressed = bucket_beq f.min_bucket b; chooses = b })
      valid_buckets

-- The choice of a bucket keeps the tools of the search.
unfoldable pub set_bucket : Bucket → RiskSearch → RiskSearch
set_bucket b search = record search { min_bucket = some b }
