-- ===== src/Sflow/Types.antt =====
-- The records of pkg/sflow/types.go, and what attribution.go reads of a Pod. `Ip` stands for `net.IP`.
use unifabric.Common.{String, List, ℕ, Option, Map, Bool, ℤ}

pub record EndpointAttribution : Type 0 where
  pub pod_name : String
  pub pod_namespace : String
  pub node_name : String
  pub top_owner_kind : String
  pub top_owner_name : String
  pub top_owner_namespace : String

pub record OwnerRef : Type 0 where
  pub api_version : String
  pub kind : String
  pub namespace : String
  pub name : String

-- corev1.Pod, the fields that the code reads
pub record Pod : Type 0 where
  pub name : String
  pub namespace : String
  pub node_name : String
  pub running : Bool
  pub pod_ip : String
  pub pod_ips : List String
  pub annotations : Map String String

module _ (Ip : Type 0) where
  pub record PodInfo : Type 0 where
    pub name : String
    pub namespace : String
    pub node_name : String
    pub ips : List (Option Ip)
    pub top_owner : Option OwnerRef

  -- A nil address is none; a time is a number.
  pub record FlowRecord : Type 0 where
    pub flow_type : ℤ
    pub time_received : ℕ
    pub sequence_num : ℕ
    pub sampling_rate : ℕ
    pub sampler_address : Option Ip
    pub time_flow_start : ℕ
    pub time_flow_end : ℕ
    pub flow_bytes : ℕ
    pub packets : ℕ
    pub src_addr : Option Ip
    pub dst_addr : Option Ip
    pub src_as : ℕ
    pub dst_as : ℕ
    pub etype : ℕ
    pub proto : ℕ
    pub src_port : ℕ
    pub dst_port : ℕ
    pub src_attribution : EndpointAttribution
    pub dst_attribution : EndpointAttribution
