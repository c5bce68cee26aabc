-- ===== src/Samples.antt =====
-- Small stand-ins for the outside code, with which the tests run the program: two addresses, tokens
-- of 26 characters, and a database in memory.
pub mod Memory
pub mod Asserts
use mathlib.Core.Logic.{ite}
use sponsor.Common.{
  ==_iff, subst, ℕ, ◌≢◌, ◌≡◌, refl, ap, sym, ◌∙◌, Bool, true, false, List, [], ◌∷◌, ◌++◌, Option,
  none, some, length, take, drop, ◌==◌, leb, ◌&&◌, if◌then◌else◌, arith, take_of_length,
  drop_of_length, length-append, All, All-append, append_assoc, String, all, &&-eq-true, leb→le,
  Bool-cases, inl, inr, ◌⊎◌, ◌<◌, ◌≤◌,
}
use sponsor.Common.Result.{Result, ok, err}
use sponsor.Common.Words.{
  to_be_bytes, from_be_bytes, length-be_bytes, be_bytes-IsByte, from_be_bytes-to_be_bytes, u64_max,
  IsByte,
}
use sponsor.Common.Text.{Text, IsText, IsScalar, lit, text_eq}
use sponsor.Common.Text.Split.{strip_prefix, strip_prefix-append}
use sponsor.Common.Text.Number.{parse_u64}
use sponsor.Common.Text.Trim.{trim, is_whitespace, trim_of_ends}
use sponsor.Crates.{Crates, Capability, is_ascii_hexdigit}

pub true-ne-false : true ≢ false
true-ne-false e = cc

pub false-ne-true : false ≢ true
false-ne-true e = cc

abbrev pub same : Discrete Bool
same true true = yes refl
same true false = no true-ne-false
same false true = no false-ne-true
same false false = yes refl

-- Forty times the digit a, or the digit b.
abbrev digits : Bool → Text
digits true = lit "aaaaaaaaaaaaaaaaaaaaaaaaaaaaaaaaaaaaaaaa"
digits false = lit "bbbbbbbbbbbbbbbbbbbbbbbbbbbbbbbbbbbbbbbb"

abbrev show : Bool → Text
show a = b'0' ∷ b'x' ∷ digits a

abbrev pub parse : Text → Result Bool
parse t =
    if text_eq t (show true)
    then ok true
    else if text_eq t (show false)
    then ok false
    else err "invalid address"

abbrev Cap : Type 0
Cap = Capability Bool Bool

pub record SampleGrant : Type 0 where
  pub says : Cap
  pub by : Bool

abbrev bit : Bool → ℕ
bit true = b'T'
bit false = b'F'

abbrev signed_token : Cap × Bool → Text
signed_token (c, k) =
    lit "dcap1:"
    ++ (bit c.signer
        ∷ bit c.pool_id
        ∷ bit k
        ∷ (to_be_bytes c.spending_cap ++ (to_be_bytes c.expiry ++ lit ".")))

abbrev body_grant : Text → Result SampleGrant
body_grant (s ∷ p ∷ k ∷ rest) =
    if length rest == 17
    then ok (record {
      says = record {
        signer = s == b'T';
        spending_cap = from_be_bytes (take 8 rest);
        pool_id = p == b'T';
        expiry = from_be_bytes (take 8 (drop 8 rest));
      };
      by = k == b'T';
    })
    else err "bad token"
body_grant _ = err "bad token"

abbrev after_prefix : Option Text → Result SampleGrant
after_prefix none = err "bad token"
after_prefix (some b) = body_grant b

abbrev read_token : Text → Result SampleGrant
read_token t = after_prefix (strip_prefix (lit "dcap1:") t)

abbrev read_back : Cap × Bool → SampleGrant
read_back (c, k) = record {
  says = record c {
    spending_cap = from_be_bytes (to_be_bytes c.spending_cap);
    expiry = from_be_bytes (to_be_bytes c.expiry);
  };
  by = k;
}

abbrev in_range : Cap → Bool
in_range c = leb c.spending_cap u64_max && leb c.expiry u64_max

unfoldable pub sample_sign : Cap → Bool → ℕ × Bool → Result (Cap × Bool)
sample_sign c k d = if in_range c then ok (c, k) else err "cannot sign"

bit_eq : (b : Bool) → (bit b == b'T') ≡ b
bit_eq true = refl
bit_eq false = refl

body_grant_of_parts :
    (s p k : Bool) (x y : List ℕ)
    → length x ≡ 8
    → length y ≡ 8
    → body_grant (bit s ∷ bit p ∷ bit k ∷ (x ++ (y ++ lit ".")))
      ≡ ok (record {
        says = record {
          signer = s;
          spending_cap = from_be_bytes x;
          pool_id = p;
          expiry = from_be_bytes y;
        };
        by = k;
      })
body_grant_of_parts s p k x y hx hy = rw (
  (==_iff (length (x ++ (y ++ lit "."))) 17).1
      (omega (arith, length-append x (y ++ lit "."), length-append y (lit "."))),
  bit_eq s,
  bit_eq p,
  bit_eq k,
  take_of_length 8 x (y ++ lit ".") hx,
  drop_of_length 8 x (y ++ lit ".") hx,
  take_of_length 8 y (lit ".") hy,
)

pub read-signed : (s : Cap × Bool) → read_token (signed_token s) ≡ ok (read_back s)
read-signed (c, k) =
    let body : Text =
      bit c.signer
      ∷ bit c.pool_id
      ∷ bit k
      ∷ (to_be_bytes c.spending_cap ++ (to_be_bytes c.expiry ++ lit ".")) in
    ap after_prefix (strip_prefix-append (lit "dcap1:") body)
    ∙ body_grant_of_parts c.signer c.pool_id k (to_be_bytes c.spending_cap) (to_be_bytes c.expiry)
        (length-be_bytes 8 _) (length-be_bytes 8 _)

pub sign-read :
    (c : Cap) (k : Bool) (d : ℕ × Bool) (s : Cap × Bool)
    → sample_sign c k d ≡ ok s
    → ((read_back s).says ≡ c) × (ok (read_back s).by ≡ ok k)
unfolding sample_sign
sign-read c k d s h =
    let fits : in_range c ≡ true = ground arith in
    let is_signed : (c, k) ≡ s = ground arith in
    let (spending, expiry) = &&-eq-true _ _ fits in
    subst (λ (t : Cap × Bool). ((read_back t).says ≡ c) × (ok (read_back t).by ≡ ok k)) is_signed
      (
        rw (
          from_be_bytes-to_be_bytes c.spending_cap (leb→le _ _ spending),
          from_be_bytes-to_be_bytes c.expiry (leb→le _ _ expiry),
        ),
        refl,
      )

bit-IsScalar : (b : Bool) → IsScalar (bit b)
bit-IsScalar true = inl (omega arith)
bit-IsScalar false = inl (omega arith)

bytes-IsText : (bs : List ℕ) → All IsByte bs → IsText bs
bytes-IsText [] h = tt
bytes-IsText (b ∷ bs) (h, t) = (inl (omega arith), bytes-IsText bs t)

pub signed-IsText : (s : Cap × Bool) → IsText (signed_token s)
signed-IsText (c, k) =
    let numbers =
      All-append IsScalar (to_be_bytes c.spending_cap) (to_be_bytes c.expiry ++ lit ".")
        (bytes-IsText _ (be_bytes-IsByte 8 _))
        (All-append IsScalar (to_be_bytes c.expiry) (lit ".") (bytes-IsText _ (be_bytes-IsByte 8 _))
          (inl (omega arith), tt)) in
    (
      inl (omega arith),
      (
        inl (omega arith),
        (
          inl (omega arith),
          (
            inl (omega arith),
            (
              inl (omega arith),
              (inl (omega arith), (bit-IsScalar _, (bit-IsScalar _, (bit-IsScalar k, numbers)))),
            ),
          ),
        ),
      ),
    )

pub trim-signed : (s : Cap × Bool) → trim (signed_token s) ≡ signed_token s
unfolding trim is_whitespace
trim-signed (c, k) =
    let numbers : Text = to_be_bytes c.spending_cap in
    let body : Text =
      lit "cap1:" ++ (bit c.signer ∷ bit c.pool_id ∷ bit k ∷ (numbers ++ to_be_bytes c.expiry)) in
    subst (λ t. trim t ≡ t)
      (ap (λ r. lit "dcap1:" ++ (bit c.signer ∷ bit c.pool_id ∷ bit k ∷ r))
        (append_assoc numbers (to_be_bytes c.expiry) (lit ".")))
      (trim_of_ends b'd' b'.' body refl refl)

pub show-digits : (a : Bool) → (parse (show a) ≡ ok a) × (length (digits a) ≡ 40)
unfolding text_eq
show-digits true = (refl, refl)
show-digits false = (refl, refl)

pub digits-IsHex : (a : Bool) → all is_ascii_hexdigit (digits a) ≡ true
unfolding is_ascii_hexdigit
digits-IsHex true = refl
digits-IsHex false = refl

abbrev pub sample_crates : Crates
sample_crates = record {
  Address = Bool;
  address_discrete = same;
  parse_address = parse;
  show_address = show;
  parse-show = λ a. (show-digits a).0;
  hex_of = digits;
  show_hex = λ a. refl;
  hex_digits = digits-IsHex;
  hex_length = λ a. (show-digits a).1;
  B256 = Bool;
  parse_b256 = parse;
  SocketAddr = Text;
  parse_socket_addr = λ t. ok t;
  PrivateKey = Bool;
  key_address = λ k. k;
  Domain = ℕ × Bool;
  voucher_domain = λ n a. (n, a);
  Signed = Cap × Bool;
  sign = sample_sign;
  to_token = signed_token;
  Grant = SampleGrant;
  from_token = read_token;
  grants = λ g. g.says;
  owner = λ g d. ok g.by;
  token-IsText = signed-IsText;
  trim-to_token = trim-signed;
  read = read_back;
  from-to_token = read-signed;
  grants-sign = sign-read;
}
