-- ===== src/ControllerHelper/NodeObjects/Names.antt =====
-- The length of the names of per-node objects, and the one case in which the name panics.
use falco_operator.Common.{
  ℕ, ◌+◌, ◌-◌, ◌*◌, ◌≤◌, ◌<◌, String, none, some, ◌≡◌, ◌≢◌, ◌⊎◌, arith, refl, append, Bool-cases,
  inl, inr, leb, ltb,
}
use falco_operator.ControllerHelper.NodeObjects.{
  node_object_name, cut, full_name, separator, max_k8s_name_len,
}
use Prim.Native.Char.{Char, len_utf8}
use Prim.Native.Nat.{compare as compare_ℕ, Ordering}
use Prim.Native.String.len
use Prim.Native.String.slice
use Prim.Native.String.{len, slice, [], ◌∷◌, fits}
use text.Mathlib.TextPositions.{len-append}

len_nil_le : (k : ℕ) → len [] ≤ k
len_nil_le k = rw len.nil (omega arith)

fits_le :
    (o : Ordering) (c : Char) (t : String) (k : ℕ)
    → compare_ℕ (len_utf8 c) k ≡ o
    → len t ≤ k - len_utf8 c
    → len (fits o c t) ≤ k
fits_le Ordering.lt c t k e h = rw (len.cons c t) (ground arith)
fits_le Ordering.eq c t k e h = rw (len.cons c t) (ground arith)
fits_le Ordering.gt c t k e h = len_nil_le k

-- A prefix has at most the bytes that it was cut at.
len-slice_le : (s : String) (k : ℕ) → len (slice s 0 k) ≤ k
len-slice_le [] k = rw (slice.nil 0 k) (len_nil_le k)
len-slice_le (c ∷ s) k = rw (slice.cons-zero c s k) (
    fits_le (compare_ℕ (len_utf8 c) k) c (slice s 0 (k - len_utf8 c)) k refl
      (len-slice_le s (k - len_utf8 c)))

len_parts3 : (a b c : String) → len (append a (append b c)) ≡ len a + (len b + len c)
len_parts3 a b c = ground (arith, len-append a (append b c), len-append b c)

len_parts5 :
    (a b c d e : String)
    → len (append a (append b (append c (append d e))))
      ≡ len a + (len b + (len c + (len d + len e)))
len_parts5 a b c d e = ground (arith, len_parts3 a b (append c (append d e)), len_parts3 c d e)

module _ (short_hash : String → String) (hash_len : (s : String) → len (short_hash s) ≡ 8) where
  -- The name of a per-node object has at most 253 bytes, and there is one unless the kind and the
  -- node's name together have 239 or 240.
  pub node_object_name-fits :
      (kind artifact_name node_name : String)
      → len kind ≤ 9
      → len kind + len node_name ≢ 239
      → len kind + len node_name ≢ 240
      → (name : String) × (node_object_name short_hash kind artifact_name node_name ≡ some name)
        × (len name ≤ max_k8s_name_len)
  unfolding node_object_name cut
  node_object_name-fits kind artifact_name node_name h a b =
      let full = full_name kind artifact_name node_name in
      let hash = short_hash full in
      let suffix = append separator hash in
      let cut_at =
        253 - len (append kind separator) - (len separator + len node_name) - len suffix in
      let whole = len_parts5 kind separator artifact_name separator node_name in
      let of_kind = len-append kind separator in
      let of_suffix = len-append separator hash in
      elim (Bool-cases (leb (len full) 253)) [
        | inl e ↦ (full, ground arith, ground arith)
        | inr e ↦ elim (Bool-cases (ltb cut_at 1)) [
          | inl q ↦
              let room = 253 - len kind - len hash - 2 * len separator in
              let node = slice node_name 0 room in
              (
                append kind (append separator (append hash (append separator node))),
                ground (arith, whole, of_kind, of_suffix, hash_len full),
                ground (
                  arith,
                  len_parts5 kind separator hash separator node,
                  hash_len full,
                  len-slice_le node_name room,
                ),
              )
          | inr q ↦
              let artifact = slice artifact_name 0 cut_at in
              let rest = append separator (append node_name suffix) in
              (
                append (append kind separator) (append artifact rest),
                ground (arith, whole, of_kind, of_suffix, hash_len full),
                ground (
                  arith,
                  of_kind,
                  of_suffix,
                  hash_len full,
                  len-slice_le artifact_name cut_at,
                  len_parts3 (append kind separator) artifact rest,
                  len_parts3 separator node_name suffix,
                ),
              )
        ]
      ]

  -- If the kind and the node's name together have 239 or 240 bytes, a name that does not fit is no
  -- name: the node's name is cut past its end.
  pub node_object_name-panics :
      (kind artifact_name node_name : String)
      → (len kind + len node_name ≡ 239) ⊎ (len kind + len node_name ≡ 240)
      → max_k8s_name_len < len (full_name kind artifact_name node_name)
      → node_object_name short_hash kind artifact_name node_name ≡ none
  unfolding node_object_name cut
  node_object_name-panics kind artifact_name node_name h k =
      let full = full_name kind artifact_name node_name in
      ground (
        arith,
        len_parts5 kind separator artifact_name separator node_name,
        len-append kind separator,
        len-append separator (short_hash full),
        hash_len full,
      )
