-- ===== src/Server/Shown.antt =====
-- What clients are to see of a stored version: the specification of `toProtoKV` of server/types.go.
use retcd.Store.Blob.{KeyValue}
use retcd.Server.Messages.{ProtoKeyValue}

-- A version as clients see it: field by field.
abbrev pub shown : KeyValue → ProtoKeyValue
shown kv = record {
  key = kv.key;
  value = kv.value;
  create_revision = kv.create_revision;
  mod_revision = kv.mod_revision;
  version = kv.version;
  lease = kv.lease;
}
