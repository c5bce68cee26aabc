-- ===== src/Server/Store/Codec.antt =====
-- The bytes of a record: what `decode` makes of what `encode` wrote.
use sponsor.Common.{
  ℕ, ◌+◌, ◌-◌, ◌≤◌, ◌≡◌, refl, ◌∙◌, List, ◌++◌, some, length, length-append, drop, take,
  take_of_length, drop_of_length, arith, append_assoc, leb, le→leb, [], true, Bool-cases, inl, inr,
  sym, length-take, length-drop, leb→le, ◌↔◌, subst,
}
use sponsor.Common.Result.{Result, ok, ◌>>=◌, ok_or, ok_or-eq-ok, bind-eq-ok}
use sponsor.Common.Words.{
  IsU64, to_be_bytes, from_be_bytes, length-be_bytes, from_be_bytes-to_be_bytes,
}
use sponsor.Common.Text.{Text, bytes, from_utf8, from_utf8-bytes}
use sponsor.Server.Store.{GrantRecord, IsRecord, encode, decode, get_range, get_from, read_u64}

read_u64-to_be_bytes : (n : ℕ) → IsU64 n → read_u64 (to_be_bytes n) ≡ some n
unfolding read_u64
read_u64-to_be_bytes n h = ground (arith, length-be_bytes 8 n, from_be_bytes-to_be_bytes n h)

get_range_between :
    (pre mid post : List ℕ) (lo hi : ℕ)
    → length pre ≡ lo
    → lo + length mid ≡ hi
    → get_range lo hi (pre ++ (mid ++ post)) ≡ some mid
unfolding get_range
get_range_between pre mid post lo hi h k = rw (
  le→leb lo hi (omega arith),
  le→leb hi (length (pre ++ (mid ++ post)))
      (omega (arith, length-append pre (mid ++ post), length-append mid post)),
  drop_of_length lo pre (mid ++ post) h,
  take_of_length (hi - lo) mid post (omega arith),
)

get_from_after :
    (pre post : List ℕ) (lo : ℕ) → length pre ≡ lo → get_from lo (pre ++ post) ≡ some post
unfolding get_from
get_from_after pre post lo h = rw (
  le→leb lo (length (pre ++ post)) (omega (arith, length-append pre post)),
  drop_of_length lo pre post h,
)

module _ (a b c t : List ℕ) (ha : length a ≡ 8) (hb : length b ≡ 8) (hc : length c ≡ 8) where
  abbrev whole : List ℕ
  whole = a ++ (b ++ (c ++ t))

  regroup : whole ≡ (a ++ (b ++ c)) ++ t
  regroup = simp append_assoc

  ranges :
      (get_range 0 8 whole ≡ some a)
      × (get_range 8 16 whole ≡ some b)
      × (get_range 16 24 whole ≡ some c)
      × (get_from 24 whole ≡ some t)
      × (leb 24 (length whole) ≡ true)
  ranges = (
    get_range_between [] a (b ++ (c ++ t)) 0 8 refl (omega arith),
    get_range_between a b (c ++ t) 8 16 ha (omega arith),
    subst (λ w. get_range 16 24 w ≡ some c) (append_assoc a b (c ++ t))
        (get_range_between (a ++ b) c t 16 24 (omega (arith, length-append a b)) (omega arith)),
    rw regroup (
        get_from_after (a ++ (b ++ c)) t 24
          (omega (arith, length-append a (b ++ c), length-append b c))),
    le→leb 24 _ (
        omega
          (arith, length-append a (b ++ (c ++ t)), length-append b (c ++ t), length-append c t)),
  )

  decode_of_parts :
      (spending expiry issued : ℕ) (token : Text)
      → read_u64 a ≡ some spending
      → read_u64 b ≡ some expiry
      → read_u64 c ≡ some issued
      → from_utf8 t ≡ some token
      → decode whole
        ≡ ok (record {
          spending_cap = spending;
          expiry = expiry;
          issued_unix = issued;
          token = token;
        })
  unfolding decode
  decode_of_parts spending expiry issued token rcap rexp riss rtok =
      let (cap_at, exp_at, iss_at, tok_at, long) = ranges in
      rw (long, cap_at, rcap, exp_at, rexp, iss_at, riss, tok_at, rtok)

-- A record whose numbers fit 64 bits and whose token is text is decoded from its encoding
-- unchanged.
pub decode-encode : (r : GrantRecord) → IsRecord r → decode (encode r) ≡ ok r
unfolding encode
decode-encode r h =
    decode_of_parts (to_be_bytes r.spending_cap) (to_be_bytes r.expiry) (to_be_bytes r.issued_unix)
      (bytes r.token) (length-be_bytes 8 _) (length-be_bytes 8 _) (length-be_bytes 8 _)
      r.spending_cap r.expiry r.issued_unix r.token (read_u64-to_be_bytes _ h.cap_IsU64)
      (read_u64-to_be_bytes _ h.expiry_IsU64) (read_u64-to_be_bytes _ h.issued_IsU64)
      (from_utf8-bytes r.token h.token_IsText)

-- The whole behaviour of `decode` on bytes that are long enough.
abbrev parts : List ℕ → Text → GrantRecord
parts b token = record {
  spending_cap = from_be_bytes (take 8 b);
  expiry = from_be_bytes (take 8 (drop 8 b));
  issued_unix = from_be_bytes (take 8 (drop 16 b));
  token = token;
}

abbrev from_parts : List ℕ → Result GrantRecord
from_parts b = do token ← ok_or (from_utf8 (drop 24 b)) "grant token not utf8"; ok (parts b token)

read_u64_of_length : (b : List ℕ) → length b ≡ 8 → read_u64 b ≡ some (from_be_bytes b)
unfolding read_u64
read_u64_of_length b h = ground arith

eight : (k : ℕ) (b : List ℕ) → k + 8 ≤ length b → length (take 8 (drop k b)) ≡ 8
eight k b h = omega (arith, length-take 8 (drop k b), length-drop k b)

decode_long : (b : List ℕ) → 24 ≤ length b → decode b ≡ from_parts b
unfolding decode get_range get_from
decode_long b h = rw (
  le→leb 24 (length b) h,
  le→leb 8 (length b) (omega arith),
  read_u64_of_length (take 8 b) (eight 0 b (omega arith)),
  le→leb 16 (length b) (omega arith),
  read_u64_of_length (take 8 (drop 8 b)) (eight 8 b (omega arith)),
  read_u64_of_length (take 8 (drop 16 b)) (eight 16 b (omega arith)),
)

decode-ne-ok_of_short : (b : List ℕ) (r : GrantRecord) → decode b ≡ ok r → 24 ≤ length b
unfolding decode
decode-ne-ok_of_short b r h = elim (Bool-cases (leb 24 (length b))) [
  | inl long ↦ leb→le 24 (length b) long
  | inr short ↦ absurd (cc (rw short at h))
]

-- `decode` succeeds exactly on the values of 24 bytes or more whose rest past the 24th is UTF-8.
pub decode-ok_iff :
    (b : List ℕ)
    → ((r : GrantRecord) × (decode b ≡ ok r))
      ↔ ((24 ≤ length b) × ((t : Text) × (from_utf8 (drop 24 b) ≡ some t)))
decode-ok_iff b = (there, back)
  where
    there :
        ((r : GrantRecord) × (decode b ≡ ok r))
        → (24 ≤ length b) × ((t : Text) × (from_utf8 (drop 24 b) ≡ some t))
    there (r, h) =
        let long = decode-ne-ok_of_short b r h in
        let read : from_parts b ≡ ok r = sym (decode_long b long) ∙ h in
        let (t, e, _) = bind-eq-ok (ok_or (from_utf8 (drop 24 b)) _) _ read in
        (long, (t, ok_or-eq-ok _ _ e))

    back :
        (24 ≤ length b) × ((t : Text) × (from_utf8 (drop 24 b) ≡ some t))
        → (r : GrantRecord) × (decode b ≡ ok r)
    back (h, (t, e)) = (parts b t, decode_long b h ∙ rw e)
