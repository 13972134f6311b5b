-- ===== src/Settings.antt =====
-- The part of `Config` (apps/server-rust/src/config.rs) that the control API reads.
use blackglass_server.Base.{ℕ, Bool, ◌||◌, List, Text, ◌==◌, nat_eq}
use blackglass_server.Table.{exists}
use blackglass_server.Limits.Invites.{InviteConfig}

pub record ControlConfig : Type 0 where
  pub session_ttl : ℕ
  pub public_data_host : Text
  pub sharing_enabled : Bool
  pub sharing_canary_owner_ids : List ℕ
  pub invites : InviteConfig

unfoldable pub sharing_allowed_for_owner : ControlConfig → ℕ → Bool
sharing_allowed_for_owner config owner =
    config.sharing_enabled || exists (λ id. id == owner) config.sharing_canary_owner_ids
