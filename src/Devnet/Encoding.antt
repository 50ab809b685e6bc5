-- ===== src/Devnet/Encoding.antt =====
-- Payloads that are encoded are decoded again.
use nyx_dirty_and_develop.Base.{
  ℕ, zero, suc, ◌+◌, ◌<◌, ◌≡◌, ◌≢◌, refl, sym, ap, ◌∙◌, arith, [], ◌∷◌, ◌++◌, length, length-append,
  take, drop, get_or, some, none, ok, >>=-eq-ok, Bytes, be32, from_be, from_be-be32, take_append,
  drop_append, take_all,
}
use nyx_dirty_and_develop.Devnet.Payload.{
  op_set, op_del, encode_payload_set, encode_payload_del, to_bytes4, encode_payload,
  check_operation, decode_payload,
}

to_bytes4-ok : (n : ℕ) (bs : Bytes) → to_bytes4 n ≡ ok bs → (n < 4294967296) × (bs ≡ be32 n)
unfolding to_bytes4
to_bytes4-ok n bs h = ground arith

drop_nil : (n : ℕ) → drop {A = ℕ} n [] ≡ []
drop_nil zero = refl
drop_nil (suc n) = refl

decode_parts :
    (p key value : Bytes) (n m : ℕ)
    → length p ≡ 9 + n + m
    → from_be 0 (take 4 (drop 1 p)) ≡ n
    → take n (drop 5 p) ≡ key
    → from_be 0 (take 4 (drop (5 + n) p)) ≡ m
    → take m (drop (9 + n) p) ≡ value
    → decode_payload p ≡ check_operation (get_or p 0 0) n m key value
unfolding decode_payload
decode_parts p key value n m size key_len at_key val_len at_value =
    rw (key_len, val_len, at_key, at_value) (ground (arith, size))

drop_more : (k n j : ℕ) (xs : Bytes) → j ≡ k + n → drop j xs ≡ drop n (drop k xs)
drop_more zero n j xs e = ap (λ i. drop i xs) (omega (arith, e))
drop_more (suc k) n zero xs e = absurd (omega (arith, e))
drop_more (suc k) n (suc j) [] e = sym (drop_nil n)
drop_more (suc k) n (suc j) (x ∷ xs) e = drop_more k n j xs (omega (arith, e))

-- A payload that `_encode_payload` returns is decoded to what its operation makes of its key and value.
pub decode-encode :
    (op : ℕ) (key value payload : Bytes)
    → encode_payload op key value ≡ ok payload
    → decode_payload payload ≡ check_operation op (length key) (length value) key value
unfolding encode_payload decode_payload
decode-encode op key value payload h =
    let (kl, e₁, h₁) = >>=-eq-ok (to_bytes4 (length key)) _ h in
    let (vl, e₂, h₂) = >>=-eq-ok (to_bytes4 (length value)) _ h₁ in
    let (b₁, k) = to_bytes4-ok (length key) kl e₁ in
    let (b₂, v) = to_bytes4-ok (length value) vl e₂ in
    let n = length key in
    let m = length value in
    let e : payload ≡ op ∷ (be32 n ++ (key ++ (be32 m ++ value))) = ground arith in
    let p = op ∷ (be32 n ++ (key ++ (be32 m ++ value))) in
    let at_5 : drop (5 + n) p ≡ be32 m ++ value =
      drop_more 5 n (5 + n) p refl ∙ drop_append key _ in
    let at_9 : drop (9 + n) p ≡ value =
      drop_more (5 + n) 4 (9 + n) p (omega arith) ∙ ap (drop 4) at_5 in
    rw e (
      decode_parts p key value n m (omega (arith, length-append key (be32 m ++ value)))
        (from_be-be32 n b₁) (take_append key _) (rw at_5 (from_be-be32 m b₂))
        (rw at_9 (take_all value)))

-- What `encode_payload_set` returns, for a key and a value that are not empty, is decoded to SET
-- with that key and value.
pub decode-encode_set :
    (key value payload : Bytes)
    → key ≢ []
    → value ≢ []
    → encode_payload_set key value ≡ ok payload
    → decode_payload payload ≡ ok (record { op = op_set; key = key; value = some value })
unfolding check_operation
decode-encode_set [] value payload hk hv h = absurd (hk refl)
decode-encode_set (x ∷ key) [] payload hk hv h = absurd (hv refl)
decode-encode_set (x ∷ key) (y ∷ value) payload hk hv h =
    decode-encode op_set (x ∷ key) (y ∷ value) payload h ∙ ground arith

-- What `encode_payload_del` returns, for a key that is not empty, is decoded to DEL of that key.
pub decode-encode_del :
    (key payload : Bytes)
    → key ≢ []
    → encode_payload_del key ≡ ok payload
    → decode_payload payload ≡ ok (record { op = op_del; key = key; value = none })
unfolding check_operation
decode-encode_del [] payload hk h = absurd (hk refl)
decode-encode_del (x ∷ key) payload hk h =
    decode-encode op_del (x ∷ key) [] payload h ∙ ground arith
