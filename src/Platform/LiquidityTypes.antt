-- ===== src/Platform/LiquidityTypes.antt =====
-- The data of internal/platform/provider_settlement.go.
use tok.Prelude.{ℤ, Option, String}
use tok.Core.Types.{Time}

pub record UdtTypeScript : Type 0 where
  pub code_hash : String
  pub hash_type : String
  pub args : String

pub record SettlementBinding : Type 0 where
  pub id : String
  pub provider_org_id : String
  pub asset : String
  pub peer_id : String
  pub p2p_address : String
  pub node_rpc_url : String
  pub payment_request_base_url : String
  pub udt_type_script : UdtTypeScript
  pub ownership_proof : String
  pub status : String
  pub created_at : Time
  pub verified_at : Option Time
  pub last_incident_at : Option Time

-- `unset` is the empty string that a missing pool reads as.
pub data PoolStatus : Type 0 where
  unset healthy degraded disconnected recovering suspended : PoolStatus

pub record LiquidityPool : Type 0 where
  pub binding_id : String
  pub provider_org_id : String
  pub asset : String
  pub status : PoolStatus
  pub ready_channel_count : ℤ
  pub total_spendable_cents : ℤ
  pub reserved_outstanding_cents : ℤ
  pub available_to_allocate_cents : ℤ
  pub last_healthy_at : Option Time
  pub last_failure_at : Option Time
  pub warm_until : Option Time
  pub disconnect_reason : String

pub data ReuseSource : Type 0 where
  reused new_channel : ReuseSource

pub data ReservationStatus : Type 0 where
  reserved active released : ReservationStatus

pub record LiquidityReservation : Type 0 where
  pub id : String
  pub order_id : String
  pub binding_id : String
  pub provider_org_id : String
  pub reserved_cents : ℤ
  pub channel_id : String
  pub reuse_source : ReuseSource
  pub status : ReservationStatus
  pub created_at : Time
  pub released_at : Option Time

pub record EnsureLiquidityInput : Type 0 where
  pub provider_org_id : String
  pub binding : SettlementBinding
  pub needed_reserve_cents : ℤ
  pub current_pool : LiquidityPool

pub record EnsureLiquidityResult : Type 0 where
  pub channel_id : String
  pub reuse_source : ReuseSource
  pub ready_channel_count : ℤ
  pub total_spendable_cents : ℤ
  pub warm_until : Option Time
