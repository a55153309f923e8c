-- ===== src/Storage/IgnoreBackup/Format.antt =====
-- The bytes of a backup read back as the list and the generation that were written.
use surveillance_hound.Common.{
  ℕ, zero, suc, ◌*◌, ◌%◌, ◌^◌, ◌<◌, ◌≡◌, refl, sym, ap, ap₂, subst, ◌∙◌, true, false, ◌&&◌, Option,
  some, List, [], ◌∷◌, ◌++◌, arith, ltb, ◌==◌, All, length, take, drop, byte_at, list_eq,
  >>=-eq-some, and-true, length-append, take-append, drop-append, some-inj, bit_xor_self,
}
use mathlib.Core.List.{append_assoc}
use surveillance_hound.Core.Category.{category_count}
use surveillance_hound.Companion.{
  IgnoredScent, ignore_capacity, valid_ignores, valid_ignores_from, no_earlier, ignored_hash,
}
use surveillance_hound.Companion.Digest.{bytes_of, digest_of, hash_of, hash_of-digest_of}
use surveillance_hound.Storage.IgnoreBackup.{
  ignore_backup_bytes, signed_size, magic, key_ok, difference, entries, entry_bytes, signed_bytes,
  decode, encode,
}

difference_same : (mac : List ℕ) → difference mac mac ≡ 0
unfolding difference
difference_same [] = refl
difference_same (m ∷ mac) = rw (difference_same mac, bit_xor_self m) refl

-- The shape of the array that the firmware keeps.
abbrev pub IsIgnoreList : List IgnoredScent → Type 0
IsIgnoreList list = (length list ≡ ignore_capacity) × All (λ e. length e.digest ≡ 8) list

length-entry_bytes :
    (list : List IgnoredScent)
    → All (λ e. length e.digest ≡ 8) list
    → length (entry_bytes list) ≡ 9 * length list
unfolding entry_bytes
length-entry_bytes [] h = refl
length-entry_bytes (e ∷ es) (h, hs) =
    omega (
      arith,
      length-append e.digest (e.category % 256 ∷ entry_bytes es),
      length-entry_bytes es hs,
      h,
    )

entry_parts :
    (d t : List ℕ) (c n : ℕ)
    → length d ≡ n
    → (take n (d ++ (c ∷ t)) ≡ d)
      × (byte_at (d ++ (c ∷ t)) n ≡ c)
      × (drop (suc n) (d ++ (c ∷ t)) ≡ t)
entry_parts [] t c zero h = (refl, refl, refl)
entry_parts [] t c (suc n) h = absurd (omega arith)
entry_parts (x ∷ d) t c zero h = absurd (omega arith)
entry_parts (x ∷ d) t c (suc n) h =
    let (a, b, e) = entry_parts d t c n (omega arith) in (ap (λ xs. x ∷ xs) a, b, e)

entries-entry_bytes :
    (earlier list : List IgnoredScent) (rest : List ℕ)
    → All (λ e. length e.digest ≡ 8) list
    → valid_ignores_from earlier list ≡ true
    → entries (length list) (entry_bytes list ++ rest) ≡ list
unfolding entries entry_bytes valid_ignores_from
entries-entry_bytes earlier [] rest h ok = refl
entries-entry_bytes earlier (e ∷ es) rest (h, hs) ok =
    let (first, later) =
      and-true (ltb e.category category_count && no_earlier (ignored_hash e) earlier) _ ok in
    let (small, _) = and-true (ltb e.category category_count) _ first in
    let byte : e.category % 256 ≡ e.category = ground (arith, small) in
    let (a, b, c) = entry_parts e.digest (entry_bytes es ++ rest) (e.category % 256) 8 h in
    ap₂ (λ (x : IgnoredScent) xs. x ∷ xs)
      (λ i. record {
        digest =
            (ap (take 8) (append_assoc e.digest (e.category % 256 ∷ entry_bytes es) rest) ∙ a) i;
        category =
            (ap (λ xs. byte_at xs 8)
                  (append_assoc e.digest (e.category % 256 ∷ entry_bytes es) rest)
                ∙ b
                ∙ byte)
              i;
      })
      (ap (λ xs. entries (length es) (drop 9 xs))
          (append_assoc e.digest (e.category % 256 ∷ entry_bytes es) rest)
        ∙ ap (entries (length es)) c
        ∙ entries-entry_bytes (e ∷ earlier) es rest hs later)

length-signed_bytes :
    (list : List IgnoredScent) (gen : ℕ)
    → IsIgnoreList list
    → length (signed_bytes list gen) ≡ signed_size
unfolding signed_bytes digest_of bytes_of
length-signed_bytes list gen (full, digests) = omega (arith, length-entry_bytes list digests, full)

generation_bytes :
    (list : List IgnoredScent) (gen : ℕ) (mac : List ℕ)
    → hash_of (take 8 (drop 8 (signed_bytes list gen ++ mac))) ≡ hash_of (digest_of gen)
unfolding signed_bytes digest_of bytes_of
generation_bytes list gen mac = refl

list_bytes :
    (list : List IgnoredScent) (gen : ℕ) (mac : List ℕ)
    → entries ignore_capacity (drop 16 (signed_bytes list gen ++ mac))
      ≡ entries ignore_capacity (entry_bytes list ++ mac)
unfolding signed_bytes digest_of bytes_of
list_bytes list gen mac = refl

module _ (hmac : List ℕ → List ℕ → Option (List ℕ)) where
  -- A code has 32 bytes.
  abbrev pub IsMac : Type 0
  IsMac = (key bytes mac : List ℕ) → hmac key bytes ≡ some mac → length mac ≡ 32

  encode-some :
      (key : List ℕ) (list : List IgnoredScent) (gen : ℕ) (bytes : List ℕ)
      → encode hmac key list gen ≡ some bytes
      → (mac : List ℕ) × (hmac key (signed_bytes list gen) ≡ some mac)
        × (signed_bytes list gen ++ mac ≡ bytes)
  unfolding encode
  encode-some key list gen bytes e =
      let (mac, e1, e2) = >>=-eq-some (hmac key (signed_bytes list gen)) _ e in
      (mac, e1, some-inj e2)

  decode-accepts :
      (key bytes body mac : List ℕ) (list : List IgnoredScent) (gen : ℕ)
      → (key_ok key && list_eq magic (take 8 bytes)) ≡ true
      → take signed_size bytes ≡ body
      → hmac key body ≡ some mac
      → drop signed_size bytes ≡ mac
      → hash_of (take 8 (drop 8 bytes)) ≡ gen
      → (gen == 0) ≡ false
      → valid_ignores (entries ignore_capacity (drop 16 bytes)) ≡ true
      → entries ignore_capacity (drop 16 bytes) ≡ list
      → decode hmac key bytes ≡ some (list, gen)
  unfolding decode
  decode-accepts key bytes body mac list gen a b c d e f g h =
      rw (a, b, c, d, difference_same mac, e, f, g, h) refl

  -- A backup of an acceptable list reads back as the same list and generation.
  pub decode-encode :
      (key : List ℕ) (list : List IgnoredScent) (gen : ℕ) (bytes : List ℕ)
      → IsMac
      → key_ok key ≡ true
      → IsIgnoreList list
      → valid_ignores list ≡ true
      → 0 < gen
      → gen < 2 ^ 64
      → encode hmac key list gen ≡ some bytes
      → (length bytes ≡ ignore_backup_bytes) × (decode hmac key bytes ≡ some (list, gen))
  decode-encode key list gen bytes sized usable (full, digests) ok positive small e =
      let (mac, e1, e2) = encode-some key list gen bytes e in
      let read =
        list_bytes list gen mac
        ∙ ap (λ n. entries n (entry_bytes list ++ mac)) (sym full)
        ∙ entries-entry_bytes [] list mac digests (unfold valid_ignores in ok) in
      let total = length-signed_bytes list gen (full, digests) in
      subst
        (λ bytes. (length bytes ≡ ignore_backup_bytes) × (decode hmac key bytes ≡ some (list, gen)))
        e2
        (
          omega (
            arith,
            length-append (signed_bytes list gen) mac,
            sized key (signed_bytes list gen) mac e1,
            total,
          ),
          decode-accepts key (signed_bytes list gen ++ mac) (signed_bytes list gen) mac list gen
              (rw (usable) (unfold signed_bytes in refl))
              (take-append signed_size (signed_bytes list gen) mac total) e1
              (drop-append signed_size (signed_bytes list gen) mac total)
              (generation_bytes list gen mac ∙ hash_of-digest_of gen small)
              (ground (arith, positive)) (ap valid_ignores read ∙ ok) read,
        )
