-- ===== src/Wrapper/Session/Pairing.antt =====
-- The saved capability belongs to the saved key, before and after the key is ensured.
use sponsor.Common.{
  ℕ, ◌≡◌, ◌≢◌, ◌⊎◌, refl, sym, ap, ◌∙◌, true, false, Option, none, some, List, arith, Bool-cases,
  inl, inr,
}
use sponsor.Common.Result.{Result, ok, err, ok-injective}
use sponsor.Common.Action.{Ends, Ends-then, Ends-map, Ends-cases}
use sponsor.Common.Text.{Text, lit, bytes, from_utf8}
use sponsor.Common.Text.Split.{strip_prefix}
use sponsor.Common.Text.Trim.{trim}
use sponsor.Crates.{Crates}
use sponsor.Wrapper.Keystore.{read_address, starts_with}
use sponsor.Wrapper.Files.{
  Disk, Entry, file, directory, Luck, works, breaks, exists, is_file, read, content_of, first,
  spent,
}
use sponsor.Wrapper.Session.Identity.{Identity}
use sponsor.Wrapper.Session.State.{
  Session, password_path, capability_path, keystore_path, remove_if_present, write_private,
  address_at, fresh_key, replace_key, ensure_key,
}
use sponsor.Wrapper.Session.Writes.{Others, remove_if_present-Ends, write_private-Ends, join-ne}

pub password-ne-capability : (s : Session) → capability_path s ≢ password_path s
unfolding starts_with strip_prefix
password-ne-capability s = join-ne s.dir (lit "capability") (lit "password") refl refl (λ e. cc)

module _ (crates : Crates) (identity : Identity crates) (s : Session) where
  open crates use {Address, from_token, grants}
  open identity use {from_slice, address_field, hex_encode, generate_and_persist}

  abbrev pub key : Text
  key = keystore_path crates identity s

  -- The keystore file is there and states this address.
  pub record HasKey (d : Disk) (a : Address) : Type 0 where
    pub mode : ℕ
    pub content : List ℕ
    pub held : d.entry key ≡ some (file mode content)
    pub states : read_address crates (λ (p : Text). ok content) from_slice address_field key ≡ ok a

  -- The capability file is there and holds the token of this capability.
  pub record Carries (d : Disk) (g : crates.Grant) : Type 0 where
    pub mode : ℕ
    pub raw : List ℕ
    pub token : Text
    pub held : d.entry (capability_path s) ≡ some (file mode raw)
    pub text : from_utf8 raw ≡ some token
    pub says : from_token (trim token) ≡ ok g

  -- A capability that is saved delegates to the key that is saved.
  pub record IsPaired (d : Disk) : Type 0 where
    pub pair : (g : crates.Grant) → Carries d g → HasKey d (grants g).signer

  pub HasKey-unique : {d : Disk} {a b : Address} → HasKey d a → HasKey d b → a ≡ b
  HasKey-unique {d} {a} {b} h k =
      let same : some (file h.mode h.content) ≡ some (file k.mode k.content) =
        sym h.held ∙ k.held in
      let content : h.content ≡ k.content = cc in
      ok-injective (
        sym h.states
        ∙ ap (λ c. read_address crates (λ (p : Text). ok c) from_slice address_field key) content
        ∙ k.states)

  pub HasKey-of_entry :
      {d d' : Disk} {a : Address} → d'.entry key ≡ d.entry key → HasKey d a → HasKey d' a
  HasKey-of_entry same h = record {
    mode = h.mode;
    content = h.content;
    held = same ∙ h.held;
    states = h.states;
  }

  pub Carries-of_entry :
      {d d' : Disk} {g : crates.Grant}
      → d'.entry (capability_path s) ≡ d.entry (capability_path s)
      → Carries d g
      → Carries d' g
  Carries-of_entry same h = record {
    mode = h.mode;
    raw = h.raw;
    token = h.token;
    held = same ∙ h.held;
    text = h.text;
    says = h.says;
  }

  pub IsPaired-of_entry :
      {d d' : Disk}
      → d'.entry key ≡ d.entry key
      → d'.entry (capability_path s) ≡ d.entry (capability_path s)
      → IsPaired d
      → IsPaired d'
  IsPaired-of_entry {d} {d'} k c p = record {
    pair = λ g saved.
        HasKey-of_entry {d = d} {d' = d'} k
          (p.pair g (Carries-of_entry {d = d'} {d' = d} (sym c) saved));
  }

  -- With no capability there is nothing to pair.
  pub IsPaired-of_none : {d : Disk} → d.entry (capability_path s) ≡ none → IsPaired d
  IsPaired-of_none {d} gone = record {
    pair = λ g h. absurd (let e : none ≡ some (file h.mode h.raw) = sym gone ∙ h.held in cc);
  }

  -- No key, and a capability that is no token or belongs to the key that is not there.
  not-HasKey : {d : Disk} {a : Address} → d.entry key ≡ none → ¬ HasKey d a
  not-HasKey gone h = let e : none ≡ some (file h.mode h.content) = sym gone ∙ h.held in cc

  -- What the key phase may leave after an error: the pairing, or, where the key had to be replaced,
  -- a capability whose key is gone.
  abbrev pub IsLeft : Disk → Disk → Type 0
  IsLeft d d' =
      IsPaired d'
      ⊎ ((exists key d ≡ true)
          × (is_file (password_path s) d ≡ false)
          × (d'.entry key ≡ none)
          × (d'.entry (capability_path s) ≡ d.entry (capability_path s)))

  abbrev Ready : Address → Disk → Type 0
  Ready a d' = HasKey d' a × IsPaired d'

  IsPaired-of_no_key :
      {d d' : Disk}
      → d.entry key ≡ none
      → d'.entry (capability_path s) ≡ d.entry (capability_path s)
      → IsPaired d
      → IsPaired d'
  IsPaired-of_no_key {d} {d'} gone c p = record {
    pair = λ g saved.
        absurd
          (not-HasKey {d = d} gone (p.pair g (Carries-of_entry {d = d'} {d' = d} (sym c) saved)));
  }

  -- A generated key is there, and the capability file is as it was, also after an error.
  pub fresh_key-Ends :
      (filled : Result (List ℕ)) (d : Disk)
      → Ends
          (λ a d'. HasKey d' a × (d'.entry (capability_path s) ≡ d.entry (capability_path s)))
          (λ d'. d'.entry (capability_path s) ≡ d.entry (capability_path s))
          (fresh_key crates identity filled s d)
  unfolding fresh_key
  fresh_key-Ends (err e) d = refl
  fresh_key-Ends (ok secret) d =
      let apart : capability_path s ≢ key = λ e. identity.keystore-ne-capability s.dir (sym e) in
      Ends-then (λ (u : Unit {0}) d1. Others (password_path s) d d1) _ _
        (write_private (password_path s) (bytes (hex_encode secret)))
        (λ u. generate_and_persist s.dir (hex_encode secret) false) d
        (Ends-map _ _ _ _ (write_private (password_path s) (bytes (hex_encode secret)) d)
          (λ u d1 (written, rest). rest) (λ d1 rest. rest _ (password-ne-capability s))
          (write_private-Ends (password_path s) (bytes (hex_encode secret)) d))
        (λ u d1 rest.
          Ends-map _ _ _ _ (generate_and_persist s.dir (hex_encode secret) false d1)
            (λ a d2 (same, mode, content, held, states). (
              record { mode = mode; content = content; held = held; states = states },
              same _ apart ∙ rest _ (password-ne-capability s),
            ))
            (λ d2 same. same _ apart ∙ rest _ (password-ne-capability s))
            (identity.generate-Ends s.dir (hex_encode secret) false d1))

  -- From a directory with no key and no token of another key.
  fresh_key-Ready :
      (filled : Result (List ℕ)) (d : Disk)
      → d.entry key ≡ none
      → IsPaired d
      → Ends Ready IsPaired (fresh_key crates identity filled s d)
  fresh_key-Ready filled d gone p =
      Ends-map _ _ _ _ (fresh_key crates identity filled s d)
        (λ a d' (k, same). (k, IsPaired-of_no_key {d = d} gone same p))
        (λ d' same. IsPaired-of_no_key {d = d} gone same p) (fresh_key-Ends filled d)

  read-Ready :
      (d d' : Disk) (l : Luck) (e : Option Entry) (a : Address)
      → d.entry key ≡ e
      → d'.entry ≡ d.entry
      → read_address crates (λ (p : Text). content_of l e) from_slice address_field key ≡ ok a
      → HasKey d' a
  unfolding read_address
  read-Ready d d' works (some (file m c)) a h same q = record {
    mode = m;
    content = c;
    held = ap (λ f. f key) same ∙ h;
    states = q;
  }
  read-Ready d d' works (some (directory m)) a h same q = absurd (cc)
  read-Ready d d' works none a h same q = absurd (cc)
  read-Ready d d' (breaks n left) none a h same q = absurd (cc)
  read-Ready d d' (breaks n left) (some e) a h same q = absurd (cc)

  address_at-Ends : (d : Disk) → IsPaired d → Ends Ready IsPaired (address_at crates identity key d)
  unfolding address_at read
  address_at-Ends d p =
      let paired = IsPaired-of_entry {d = d} {d' = spent d} refl refl p in
      Ends-cases Ready IsPaired (address_at crates identity key d).0 (spent d)
        (λ a q. (read-Ready d (spent d) (first d.lucks) (d.entry key) a refl refl q, paired))
        (λ e q. paired)

  replace_key-Ends :
      (filled : Result (List ℕ)) (d : Disk)
      → exists key d ≡ true
      → is_file (password_path s) d ≡ false
      → IsPaired d
      → Ends Ready (IsLeft d) (replace_key crates identity filled s d)
  unfolding replace_key
  replace_key-Ends filled d there no_password p =
      let apart : capability_path s ≢ key = λ e. identity.keystore-ne-capability s.dir (sym e) in
      Ends-then (λ (u : Unit {0}) d1. (d1.entry key ≡ none) × Others key d d1) Ready (IsLeft d)
        (remove_if_present key) _ d
        (Ends-map _ _ _ _ (remove_if_present key d) (λ u d1 h. h)
          (λ d1 same. inl (
            IsPaired-of_entry {d = d} (ap (λ f. f key) same) (ap (λ f. f (capability_path s)) same)
              p))
          (remove_if_present-Ends key d))
        (λ u d1 (gone, rest).
          Ends-then
            (λ (v : Unit {0}) d2. (d2.entry key ≡ none) × (d2.entry (capability_path s) ≡ none))
            Ready (IsLeft d) (remove_if_present (capability_path s)) _ d1
            (Ends-map _ _ _ _ (remove_if_present (capability_path s) d1)
              (λ v d2 (dropped, kept). (kept key (λ e. apart (sym e)) ∙ gone, dropped))
              (λ d2 same. inr (
                there,
                no_password,
                ap (λ f. f key) same ∙ gone,
                ap (λ f. f (capability_path s)) same ∙ rest _ apart,
              ))
              (remove_if_present-Ends (capability_path s) d1))
            (λ v d2 (no_key, no_cap).
              Ends-map _ _ _ _ (fresh_key crates identity filled s d2) (λ a d3 h. h) (λ d3 h. inl h)
                (fresh_key-Ready filled d2 no_key (IsPaired-of_none {d = d2} no_cap))))

  absent_entry : (d : Disk) → exists key d ≡ false → d.entry key ≡ none
  unfolding exists
  absent_entry d h = ground arith

  -- From a directory whose saved capability belongs to its saved key, `ensure_key` returns the
  -- address of the key that is then saved and keeps the capability with its key, for every way in
  -- which file calls may fail; after an error they belong together too, except where a key without
  -- a password file was removed and its capability was left.
  pub ensure_key-IsPaired :
      (filled : Result (List ℕ)) (d : Disk)
      → IsPaired d
      → Ends (λ a d'. HasKey d' a × IsPaired d') (IsLeft d) (ensure_key crates identity filled s d)
  unfolding ensure_key
  ensure_key-IsPaired filled d p = elim (Bool-cases (exists key d)) [
    | inr absent ↦ rw (absent) (
        Ends-map Ready Ready IsPaired (IsLeft d) (fresh_key crates identity filled s d)
          (λ a d' h. h) (λ d' h. inl h) (fresh_key-Ready filled d (absent_entry d absent) p))
    | inl there ↦ elim (Bool-cases (is_file (password_path s) d)) [
      | inl usable ↦
          rw (there, usable)
            (Ends-map Ready Ready IsPaired (IsLeft d) (address_at crates identity key d)
              (λ a d' h. h) (λ d' h. inl h) (address_at-Ends d p))
      | inr no_password ↦ rw (there, no_password) (replace_key-Ends filled d there no_password p)
    ]
  ]
