-- ===== src/Store/Blob.antt =====
-- The stored blob: `enc64` and `dec64` of store/write.lua and store/txn.lua, and `decodeKV` of
-- store/redis.go. Lua numbers are doubles, which are exact below 2^53.
pub mod RoundTrip
use retcd.Prelude.{
  ℕ, zero, suc, ◌+◌, ◌*◌, ◌/◌, ◌%◌, [], ◌∷◌, ◌++◌, Option, none, some, ltb, if◌then◌else◌, length,
  take, drop,
}
use retcd.Bytes.{Bytes}

pub record KeyValue : Type 0 where
  pub key : Bytes
  pub value : Bytes
  pub create_revision : ℕ
  pub mod_revision : ℕ
  pub version : ℕ
  pub lease : ℕ

-- The loop of `enc64`: the byte at place `i` is `v % 256`, and `v` is divided by 256.
unfoldable pub enc_loop : ℕ → ℕ → Bytes → Bytes
enc_loop zero v b = b
enc_loop (suc i) v b = enc_loop i (v / 256) (v % 256 ∷ b)

-- The script computes with doubles: the definition is its result for a number below 2^53.
unfoldable pub enc64 : ℕ → Bytes
unfolding enc_loop
enc64 v = enc_loop 8 v []

-- The loop of `dec64` over the bytes from an offset on; `n` bytes are left.
unfoldable pub dec_loop : ℕ → ℕ → Bytes → ℕ
dec_loop zero v s = v
dec_loop (suc n) v [] = v
dec_loop (suc n) v (c ∷ s) = dec_loop n (v * 256 + c) s

-- `dec64(s, off)`, with the offset counted from 0.
unfoldable pub dec64 : Bytes → ℕ → ℕ
unfolding dec_loop
dec64 s off = dec_loop 8 0 (drop off s)

-- binary.BigEndian.Uint64 of a slice of 8 bytes
unfoldable pub uint64 : Bytes → ℕ
unfolding dec_loop
uint64 s = dec_loop 8 0 s

abbrev pub slice : Bytes → ℕ → ℕ → Bytes
slice s lo n = take n (drop lo s)

-- The conversion to int64 keeps a number below 2^63. From there on the code has a negative number, and
-- this definition does not: the model is for blobs whose numbers are below that.
unfoldable pub decode_kv : Bytes → Bytes → Option KeyValue
unfolding uint64
decode_kv key blob =
    if ltb (length blob) 32
    then none
    else some (record {
      key = key;
      create_revision = uint64 (slice blob 0 8);
      mod_revision = uint64 (slice blob 8 8);
      version = uint64 (slice blob 16 8);
      lease = uint64 (slice blob 24 8);
      value = drop 32 blob;
    })

-- enc64(create_rev) .. enc64(new_rev) .. enc64(version) .. enc64(lease) .. value
unfoldable pub make_blob : ℕ → ℕ → ℕ → ℕ → Bytes → Bytes
unfolding enc64
make_blob create_rev new_rev version lease value =
    enc64 create_rev ++ (enc64 new_rev ++ (enc64 version ++ (enc64 lease ++ value)))
