-- ===== src/Store/Refine.antt =====
-- The refinement: a Redis database stands for a state of the multi-version store, and the scripts
-- take it where the specification says.
pub mod Codec
pub mod Index
pub mod Events
pub mod Agree
pub mod Write
pub mod Txn
use retcd.Prelude.{
  ℕ, suc, ◌+◌, ◌<◌, ◌^◌, ◌≡◌, Bool, List, [], ◌∷◌, ◌++◌, Option, none, some, is_some,
}
use retcd.Bytes.{Bytes}
use retcd.Redis.{Redis, contains}
use retcd.Store.Blob.{KeyValue, make_blob}
use retcd.Store.Event.{Event, XMessage, parse_stream_event}
use retcd.Store.Keyspace.{Shape, Has}
use retcd.Store.Mvcc.{Mvcc}
use Index.{IsOrdered}

unfoldable pub encode : KeyValue → Bytes
encode kv = make_blob kv.create_revision kv.mod_revision kv.version kv.lease kv.value

abbrev pub encoded : Option KeyValue → Option Bytes
encoded none = none
encoded (some kv) = some (encode kv)

-- What a reader of the stream gets: entries that do not parse are skipped.
abbrev pub and_then : Option Event → List Event → List Event
and_then none evs = evs
and_then (some ev) evs = ev ∷ evs

unfoldable pub parse_all : List XMessage → List Event
parse_all [] = []
parse_all (e ∷ es) = and_then (parse_stream_event e) (parse_all es)

pub record Agrees (s : Shape) (m : Mvcc) : Type 0 where
  pub revision : s.counter ≡ m.revision
  pub blobs : (k : Bytes) → s.blobs k ≡ encoded (m.at k)
  pub indexed : (k : Bytes) → contains k s.members ≡ is_some (m.at k)
  pub ordered : IsOrdered s.members
  pub history : parse_all s.entries ≡ m.history

pub record Refines (R : Redis) (db : R.Db) (m : Mvcc) : Type 0 where
  pub shape : Shape
  pub has : Has R db shape
  pub agrees : Agrees shape m
