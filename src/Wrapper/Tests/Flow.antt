-- ===== src/Wrapper/Tests/Flow.antt =====
-- A download directory in memory, and the theorems on it.
use sponsor.Common.{
  ℕ, ◌+◌, ◌<◌, ◌≡◌, ◌≢◌, refl, sym, subst, ◌∙◌, Bool, true, false, Option, none, some, List, [],
  ◌∷◌, arith, if◌then◌else◌,
}
use sponsor.Common.Result.{Result, ok, err}
use sponsor.Common.Action.{Action, Ends}
use sponsor.Common.Words.{saturating_add, be_bytes, from_be_from}
use sponsor.Common.Text.{Text, IsText, lit, bytes, text_eq, from_utf8-bytes}
use sponsor.Common.Text.Trim.{trim, trim_start, is_whitespace}
use sponsor.Common.Text.Split.{strip_prefix}
use sponsor.Crates.{is_ascii_hexdigit}
use sponsor.Samples.{sample_crates, signed-IsText}
use sponsor.Server.Http.{since_epoch}
use sponsor.Wrapper.Files.{
  Disk, file, directory, works, breaks, exists, is_file, write_all, open_truncated, create_dir,
  set_permissions, remove_dir_all,
}
use sponsor.Wrapper.Keystore.{starts_with}
use sponsor.Wrapper.Keystore.Address.{}
use sponsor.Wrapper.Session.{normalize_hash, to_ascii_lowercase, without_tag}
use sponsor.Wrapper.Session.Identity.{Identity}
use sponsor.Wrapper.Session.State.{
  Session, password_path, capability_path, write_private, ensure_key, create_private_dir,
  open_session, capability, discard, save_capability, fresh_key,
}
use sponsor.Wrapper.Session.Writes.{}
use sponsor.Wrapper.Session.Reads.{session_of}
use sponsor.Wrapper.Session.Pairing.{
  HasKey, Carries, IsPaired, IsPaired-of_none, IsLeft, ensure_key-IsPaired,
}
use sponsor.Wrapper.Tests.Keys
use sponsor.Wrapper.Tests.Keys.{key_path, identity_for}
use sponsor.Wrapper.Browser.{unseen}
use sponsor.Wrapper.Api.{Net, get_capability, CapabilityInfo}
use sponsor.Wrapper.Config.{WrapperConfig, join}
use sponsor.Wrapper.Flow.{Machine, acquire, pull, launch, obtain, live_session, expiry_margin_secs}
use sponsor.Wrapper.Flow.Gateway.{IsHonest, IsFor}
use sponsor.Wrapper.Flow.Finished.{Finished, pull-Finished}
use sponsor.Wrapper.Flow.Stale.{Mismatched, stale_capability_reused}
use sponsor.Wrapper.Flow.Resume.{IsResumable, pull-launch}

abbrev pub hex_true : Text
hex_true = sample_crates.hex_of true

abbrev pub identity : Identity sample_crates
identity = identity_for (λ secret. lit "pw") (λ password. true)

-- A capability token for an address; the bytes of its numbers are no white space.
abbrev pub token_for : Bool → Text
token_for a =
    sample_crates.to_token
      (record { signer = a; spending_cap = 1; pool_id = true; expiry = 2_000_000_001 }, true)

abbrev pub hash : Text
hash = lit "9194000d7b356650e6924a7746ec4afb0b705838b65913c0e46cba6b15af69e5"

abbrev pub empty_disk : Disk
empty_disk = record { entry = λ q. none; lucks = [] }

abbrev pub s : Session
s = session_of (lit "/d") hash

-- A key with no password, and its capability; the second removal fails.
abbrev half_disk : Disk
half_disk = record {
  entry = λ q.
      if text_eq q (key_path s.dir)
      then some (file 0o600 hex_true)
      else if text_eq q (capability_path s)
      then some (file 0o600 (bytes (token_for true)))
      else none;
  lucks = works ∷ breaks 0 (λ q. true) ∷ [];
}

grant_of :
    (a : Bool)
    → (g : sample_crates.Grant) × (sample_crates.from_token (trim (token_for a)) ≡ ok g)
      × ((sample_crates.grants g).signer ≡ a)
unfolding trim trim_start is_whitespace strip_prefix be_bytes from_be_from
grant_of true = (_, refl, refl)
grant_of false = (_, refl, refl)

pub token_for-IsText : (a : Bool) → IsText (token_for a)
token_for-IsText a =
    signed-IsText
      (record { signer = a; spending_cap = 1; pool_id = true; expiry = 2_000_000_001 }, true)

half_Carries : Carries sample_crates identity s half_disk (grant_of true).0
unfolding text_eq join starts_with strip_prefix
half_Carries = record {
  mode = 0o600;
  raw = bytes (token_for true);
  token = token_for true;
  held = refl;
  text = from_utf8-bytes (token_for true) (token_for-IsText true);
  says = (grant_of true).1;
}

half_key : half_disk.entry (key_path s.dir) ≡ some (file 0o600 hex_true)
unfolding text_eq join starts_with strip_prefix
half_key = refl

half_password : is_file (password_path s) half_disk ≡ false
unfolding is_file text_eq join starts_with strip_prefix
half_password = refl

abbrev empty_Identity : IsPaired sample_crates identity s empty_disk
empty_Identity = IsPaired-of_none sample_crates identity s {d = empty_disk} refl

ensure_key-IsPaired_example :
    Ends
      (λ a d'. HasKey sample_crates identity s d' a × IsPaired sample_crates identity s d')
      (IsLeft sample_crates identity s empty_disk)
      (ensure_key sample_crates identity (ok (1 ∷ [])) s empty_disk)
ensure_key-IsPaired_example =
    ensure_key-IsPaired sample_crates identity s (ok (1 ∷ [])) empty_disk empty_Identity

-- A gateway that has a token for everybody.
abbrev pub token_reply : List (Text × Text) → Option Text
token_reply [] = none
token_reply ((k, v) ∷ rest) = some (token_for (text_eq v (sample_crates.show_address true)))

abbrev pub net : Net ℕ
net = record {
  fetch = λ url query w. (ok (record { status = 200; token = token_reply query }), w + 1);
  instant = λ w. w;
  sleep = λ d w. w + d;
  console = unseen;
  fetch-later = λ url query w. omega arith;
  sleep-later = λ d w. omega arith;
}

abbrev pub cfg : WrapperConfig sample_crates
cfg = record {
  gateway_base = lit "http://gw";
  decdn_bin = lit "decdn";
  data_dir = lit "/d";
  rpc_url = lit "http://rpc";
  payment_pool = false;
  capacity_bond = none;
  slash_judge = some true;
  chain_id = 421_614;
}

pub token_for-IsFor : (a : Bool) → IsFor sample_crates identity net cfg a (token_for a)
token_for-IsFor a = record {
  text = token_for-IsText a;
  grant = (grant_of a).0;
  says = (grant_of a).1;
  signer = (grant_of a).2;
}

pub fetched :
    (client : Bool) (w : ℕ)
    → get_capability sample_crates net (lit "http://gw") client w
      ≡ (ok (some (record { token = token_for client })), w + 1)
unfolding get_capability text_eq
fetched true w = refl
fetched false w = refl

pub answered :
    (t : Text) (info : CapabilityInfo) (w w' : ℕ)
    → ◌≡◌ {A = Result (Option CapabilityInfo) × ℕ}
        (ok (some (record { token = t })), w)
        (ok (some info), w')
    → t ≡ info.token
answered t info w w' h = cc

pub honest : IsHonest sample_crates identity net cfg
honest = record {
  answers = λ client w w' info h.
      subst (IsFor sample_crates identity net cfg client)
        (answered (token_for client) info (w + 1) w' (sym (fetched client w) ∙ h))
        (token_for-IsFor client);
}

abbrev pub spawn : Text → List Text → Action (Machine ℕ) Bool
spawn bin args m = (ok true, m)

abbrev pub start : Machine ℕ
start = record { disk = empty_disk; world = 0 }

pull-Finished_example :
    Ends
      (λ u m'. Finished sample_crates identity net cfg spawn hash (lit ".") m')
      (λ (m' : Machine ℕ). Unit {0})
      (pull sample_crates identity net cfg spawn
        (ok (1 ∷ []))
        (since_epoch 1000 0)
        hash
        (lit ".")
        start)
pull-Finished_example =
    pull-Finished sample_crates identity net cfg spawn honest (ok (1 ∷ [])) (since_epoch 1000 0)
      hash (lit ".") start
      (λ hex normal.
        IsPaired-of_none sample_crates identity (session_of (lit "/d") hex) {d = empty_disk} refl)

pulled :
    (pull sample_crates identity net cfg spawn
      (ok (1 ∷ []))
      (since_epoch 1000 0)
      hash
      (lit ".")
      start).0
    ≡ ok tt
unfolding pull normalize_hash to_ascii_lowercase without_tag trim trim_start is_whitespace
    strip_prefix bytes is_ascii_hexdigit live_session open_session create_private_dir create_dir
    set_permissions capability exists acquire ensure_key fresh_key write_private open_truncated
    write_all obtain get_capability save_capability discard remove_dir_all text_eq join starts_with
pulled = refl

stale_capability_reused_example :
    ((ensure_key sample_crates identity (ok (1 ∷ [])) s half_disk).0 ≡ err "remove")
    × Ends
        (Mismatched sample_crates identity s net cfg (grant_of true).0 0)
        (λ (m' : Machine ℕ). Unit {0})
        (acquire sample_crates identity net cfg (ok (2 ∷ [])) s (record {
          disk = (ensure_key sample_crates identity (ok (1 ∷ [])) s half_disk).1;
          world = 0;
        }))
stale_capability_reused_example =
    stale_capability_reused sample_crates identity s net cfg (ok (1 ∷ [])) (ok (2 ∷ [])) half_disk 0
      0o600 hex_true (grant_of true).0 0 (λ q. true) half_key half_password half_Carries refl refl

-- A key, its password and its capability.
abbrev full_disk : Disk
full_disk = record {
  entry = λ q.
      if text_eq q (key_path s.dir)
      then some (file 0o600 hex_true)
      else if text_eq q (capability_path s)
      then some (file 0o600 (bytes (token_for true)))
      else if text_eq q (password_path s)
      then some (file 0o600 (lit "pw"))
      else if text_eq q s.dir
      then some (directory 0o700)
      else none;
  lucks = [];
}

full_HasKey : HasKey sample_crates identity s full_disk true
unfolding text_eq join starts_with strip_prefix
full_HasKey = record {
  mode = 0o600;
  content = hex_true;
  held = refl;
  states = Keys.states (λ password. true) [] (key_path s.dir);
}

full_Carries : Carries sample_crates identity s full_disk (grant_of true).0
unfolding text_eq join starts_with strip_prefix
full_Carries = record {
  mode = 0o600;
  raw = bytes (token_for true);
  token = token_for true;
  held = refl;
  text = from_utf8-bytes (token_for true) (token_for-IsText true);
  says = (grant_of true).1;
}

full-IsResumable : IsResumable sample_crates identity s true (grant_of true).0 full_disk
unfolding is_file text_eq join starts_with strip_prefix
full-IsResumable = record {
  mode = 0o700;
  there = refl;
  key_is = full_HasKey;
  usable = refl;
  carried = full_Carries;
  unbroken = refl;
}

pub normal_hash : normalize_hash hash ≡ ok hash
unfolding normalize_hash to_ascii_lowercase without_tag trim trim_start is_whitespace strip_prefix
    bytes is_ascii_hexdigit
normal_hash = refl

still_live :
    saturating_add 1000 expiry_margin_secs < (sample_crates.grants (grant_of true).0).expiry
unfolding grant_of saturating_add be_bytes from_be_from
still_live = omega arith

abbrev resumed : Machine ℕ
resumed = record { disk = full_disk; world = 7 }

pull-launch_example :
    (m : Machine ℕ) × (pull sample_crates identity net cfg spawn
        (ok [])
        (since_epoch 1000 0)
        hash
        (lit ".")
        resumed
      ≡ launch sample_crates identity net cfg spawn hash (lit ".") s m)
    × (m.world ≡ 7)
    × ((q : Text) → q ≢ s.dir → m.disk.entry q ≡ full_disk.entry q)
pull-launch_example =
    pull-launch sample_crates identity net cfg spawn (ok []) 1000 0 hash hash (lit ".") true
      (grant_of true).0 resumed normal_hash full-IsResumable still_live
