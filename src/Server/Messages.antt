-- ===== src/Server/Messages.antt =====
-- The fields of etcd's protobuf messages that the handlers of server/ read and fill in, and
-- `toProtoKV` of server/types.go. An unset oneof is a constructor of its own.
use retcd.Prelude.{ℕ, Bool, List, Option, ℤ, pos}
use retcd.Bytes.{Bytes}
use retcd.Store.Blob.{KeyValue}

-- mvccpb.KeyValue
pub record ProtoKeyValue : Type 0 where
  pub key : Bytes
  pub value : Bytes
  pub create_revision : ℕ
  pub mod_revision : ℕ
  pub version : ℕ
  pub lease : ℕ

unfoldable pub to_proto_kv : KeyValue → ProtoKeyValue
to_proto_kv kv = record {
  key = kv.key;
  value = kv.value;
  create_revision = kv.create_revision;
  mod_revision = kv.mod_revision;
  version = kv.version;
  lease = kv.lease;
}

pub record ResponseHeader : Type 0 where
  pub cluster_id : ℕ
  pub member_id : ℕ
  pub revision : ℕ

abbrev pub header_at : ℕ → ResponseHeader
header_at rev = record { cluster_id = 1; member_id = 1; revision = rev }

pub record PutRequest : Type 0 where
  pub key : Bytes
  pub value : Bytes
  pub lease : ℕ
  pub prev_kv : Bool

pub record PutResponse : Type 0 where
  pub header : ResponseHeader
  pub prev_kv : Option ProtoKeyValue

pub record RangeRequest : Type 0 where
  pub key : Bytes
  pub range_end : Bytes
  pub count_only : Bool

pub record RangeResponse : Type 0 where
  pub header : ResponseHeader
  pub count : ℕ
  pub kvs : List ProtoKeyValue

pub record DeleteRangeRequest : Type 0 where
  pub key : Bytes
  pub range_end : Bytes

pub record DeleteRangeResponse : Type 0 where
  pub header : ResponseHeader
  pub deleted : ℕ

pub data CompareTarget : Type 0 where
  on_version on_create on_mod on_other : CompareTarget

pub data CompareResult : Type 0 where
  equal not_equal greater less other_result : CompareResult

-- The oneof `target_union`.
pub data TargetUnion : Type 0 where
  version create_revision mod_revision : ℤ → TargetUnion
  other_union : TargetUnion

pub record Compare : Type 0 where
  pub result : CompareResult
  pub target : CompareTarget
  pub key : Bytes
  pub target_union : TargetUnion

-- The getters give 0 where the oneof holds something else.
abbrev pub get_version : TargetUnion → ℤ
get_version (version n) = n
get_version (create_revision n) = pos 0
get_version (mod_revision n) = pos 0
get_version other_union = pos 0

abbrev pub get_create_revision : TargetUnion → ℤ
get_create_revision (version n) = pos 0
get_create_revision (create_revision n) = n
get_create_revision (mod_revision n) = pos 0
get_create_revision other_union = pos 0

abbrev pub get_mod_revision : TargetUnion → ℤ
get_mod_revision (version n) = pos 0
get_mod_revision (create_revision n) = pos 0
get_mod_revision (mod_revision n) = n
get_mod_revision other_union = pos 0

pub data RequestOp : Type 0 where
  request_put : PutRequest → RequestOp
  request_range : RangeRequest → RequestOp
  request_delete_range : DeleteRangeRequest → RequestOp
  request_other : RequestOp

pub data ResponseOp : Type 0 where
  response_put : PutResponse → ResponseOp
  response_range : RangeResponse → ResponseOp
  response_delete_range : DeleteRangeResponse → ResponseOp
  response_empty : ResponseOp

pub record TxnRequest : Type 0 where
  pub compare : List Compare
  pub success : List RequestOp
  pub failure : List RequestOp

pub record TxnResponse : Type 0 where
  pub header : ResponseHeader
  pub succeeded : Bool
  pub responses : List ResponseOp

pub record StatusResponse : Type 0 where
  pub header : ResponseHeader
  pub raft_index : ℕ
