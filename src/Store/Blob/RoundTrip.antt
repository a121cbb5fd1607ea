-- ===== src/Store/Blob/RoundTrip.antt =====
-- Encoding and decoding a blob.
use retcd.Prelude.{ℕ, zero, suc, ◌≤◌, take, [], ◌∷◌, none, ◌+◌, ◌^◌, ◌<◌, ◌≡◌, some, length, arith}
use retcd.Bytes.{Bytes}
use retcd.Store.Blob.{enc64, uint64, decode_kv, make_blob}

-- The eight bytes hold every number below 2^64, whatever follows them.
pub uint64-enc64 : (n : ℕ) → n < 2 ^ 64 → uint64 (enc64 n) ≡ n
unfolding uint64 enc64
uint64-enc64 n h = omega arith

pub length-make_blob :
    (c m v l : ℕ) (value : Bytes) → length (make_blob c m v l value) ≡ 32 + length value
unfolding make_blob
length-make_blob c m v l value = omega arith

length-take : (n : ℕ) (s : Bytes) → length (take n s) ≤ n
length-take zero s = omega arith
length-take (suc n) [] = omega arith
length-take (suc n) (x ∷ s) = omega (arith, length-take n s)

pub decode_kv-fields :
    (key : Bytes) (c m v l : ℕ) (value : Bytes)
    → c < 2 ^ 64
    → m < 2 ^ 64
    → v < 2 ^ 64
    → l < 2 ^ 64
    → decode_kv key (make_blob c m v l value)
      ≡ some (record {
        key = key;
        value = value;
        create_revision = c;
        mod_revision = m;
        version = v;
        lease = l;
      })
unfolding make_blob decode_kv
decode_kv-fields key c m v l value hc hm hv hl =
    ground (arith, uint64-enc64 c hc, uint64-enc64 m hm, uint64-enc64 v hv, uint64-enc64 l hl)

pub decode_kv-short : (key blob : Bytes) → length blob < 32 → decode_kv key blob ≡ none
unfolding decode_kv
decode_kv-short key blob h = ground arith

-- A blob whose numbers are below 2^53, where Lua's doubles are exact and Go's conversion to int64
-- keeps the number, decodes to the fields that it was made of; a blob that is cut off before its 32nd
-- byte does not decode.
pub decode_kv-make_blob :
    (key : Bytes) (c m v l : ℕ) (value : Bytes)
    → c < 2 ^ 53
    → m < 2 ^ 53
    → v < 2 ^ 53
    → l < 2 ^ 53
    → (decode_kv key (make_blob c m v l value)
        ≡ some (record {
          key = key;
          value = value;
          create_revision = c;
          mod_revision = m;
          version = v;
          lease = l;
        }))
      × ((n : ℕ) → n < 32 → decode_kv key (take n (make_blob c m v l value)) ≡ none)
decode_kv-make_blob key c m v l value hc hm hv hl = (
  decode_kv-fields key c m v l value (omega (arith, hc)) (omega (arith, hm)) (omega (arith, hv))
      (omega (arith, hl)),
  λ n h.
      decode_kv-short key (take n (make_blob c m v l value))
        (omega (arith, h, length-take n (make_blob c m v l value))),
)
