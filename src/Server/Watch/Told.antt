-- ===== src/Server/Watch/Told.antt =====
-- What clients are to be told of an event: the specification of `eventToProto` of server/watch.go.
use retcd.Prelude.{◌≡◌, refl, Option, none, some, [], if◌then◌else◌}
use retcd.Bytes.{str_eq}
use retcd.Store.Blob.{KeyValue}
use retcd.Store.Event.{Event, put_op, delete_op}
use retcd.Server.Messages.{ProtoKeyValue, to_proto_kv}
use retcd.Server.Shown.{shown}
use retcd.Server.Watch.{ProtoEvent, put_type, delete_type, event_to_proto, option_proto}

abbrev shown_if : Option KeyValue → Option ProtoKeyValue
shown_if none = none
shown_if (some kv) = some (shown kv)

-- A put with the new version and the one before it; a deletion with the key and its revision, and
-- the version that is gone; nothing of an event of another kind.
unfoldable pub told : Event → Option ProtoEvent
told ev =
    if str_eq ev.kind put_op
    then some (record { typ = put_type; kv = shown_if ev.kv; prev_kv = shown_if ev.prev_kv })
    else if str_eq ev.kind delete_op
    then some (record {
      typ = delete_type;
      kv = some (record {
        key = ev.key;
        value = [];
        create_revision = 0;
        mod_revision = ev.rev;
        version = 0;
        lease = 0;
      });
      prev_kv = shown_if ev.prev_kv;
    })
    else none

option_proto-shown : (o : Option KeyValue) → option_proto o ≡ shown_if o
unfolding to_proto_kv
option_proto-shown none = refl
option_proto-shown (some kv) = refl

pub event_to_proto-told : (ev : Event) → event_to_proto ev ≡ told ev
unfolding event_to_proto told
event_to_proto-told ev = rw (option_proto-shown ev.kv, option_proto-shown ev.prev_kv) refl
