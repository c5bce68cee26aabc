-- ===== src/Server/Http/Interleaved/Parts.antt =====
-- One part of a request: what it leaves when the store was a ledger.
use sponsor.Common.{
  ◌≡◌, refl, sym, ◌∙◌, ◌<◌, Bool, true, false, Option, none, some, arith, ltb, Bool-cases, inl, inr,
  ltb→lt,
}
use sponsor.Common.Result.{Result, ok, err, Result-cases}
use sponsor.Common.Action.{Ends-ok}
use sponsor.Common.Words.{u64_max}
use sponsor.Common.Text.{Text}
use sponsor.Crates.{Crates}
use sponsor.Server.Store.{GrantRecord}
use sponsor.Server.Store.Redb.{Redb}
use sponsor.Server.Store.Grants.{get_grant_reads, get_grant-rows}
use sponsor.Server.Store.Table.{get_grant, decode_row}
use sponsor.Server.State.{AppState}
use sponsor.Server.Http.{Response, token_json, now_unix, parse_client}
use sponsor.Server.Http.Fund.{record_of}
use sponsor.Server.Http.Fund.Ledger.{
  IsConsistent, IsIssued, IsLedger, IsLedger-of_rows, IsIssued-record_of, row-IsIssued,
}
use sponsor.Server.Http.Fund.Answers.{
  token_json-injective, internal-ne-token, bad_request-ne-token, forbidden-ne-token, expiry_later,
}
use sponsor.Server.Http.Interleaved.{
  Call, Phase, received, verified, missed, answered, checked, looked_up, advance,
}
use sponsor.Server.Http.Interleaved.Steps.{
  HasRow, Grows, Grows-of_rows, Saved, unsaved, saved, save-Saved, Saved-IsLedger, Saved-Grows,
  HasRow-saved,
}

module _ (crates : Crates) (redb : Redb crates.Address crates.address_discrete) {Chain : Type 0}
    (state : AppState crates Chain) where
  open crates use {Address, parse_address}
  open redb use {Db, rows}

  -- The request names this address, and its captcha was passed.
  pub record IsAllowed (v : Call) (client : Address) : Type 0 where
    pub is_client : parse_address v.request.client ≡ ok client
    pub passed : v.verifier.verify v.request.turnstile_token none ≡ ok true

  -- The token is that of a record that the issuer signed for the address that the request names,
  -- live at its time, and the store holds a record for this address.
  pub record IsServed (v : Call) (token : Text) (db : Db) : Type 0 where
    pub client : Address
    pub allowed : IsAllowed v client
    pub rec : GrantRecord
    pub issued : IsIssued crates redb state client rec
    pub token_is : rec.token ≡ token
    pub live : now_unix v.time < rec.expiry
    pub held : HasRow crates redb state db client

  abbrev pub IsSound : Call → Phase Address → Db → Type 0
  IsSound v received db = Unit
  IsSound v (verified client) db = IsAllowed v client
  IsSound v (missed client) db = IsAllowed v client
  IsSound v (answered resp) db = (token : Text) → resp ≡ token_json token → IsServed v token db

  -- A sound task stays sound while others go on.
  pub IsSound-later :
      (v : Call) (phase : Phase Address) (db db' : Db)
      → Grows crates redb state db db'
      → IsSound v phase db
      → IsSound v phase db'
  IsSound-later v received db db' g s = tt
  IsSound-later v (verified client) db db' g s = s
  IsSound-later v (missed client) db db' g s = s
  IsSound-later v (answered resp) db db' g s = λ token e.
      let a = s token e in
      record {
        client = a.client;
        allowed = a.allowed;
        rec = a.rec;
        issued = a.issued;
        token_is = a.token_is;
        live = a.live;
        held = g a.client a.held;
      }

  -- What one part of a request leaves.
  pub record Advanced (v : Call) (db : Db) (phase : Phase Address) (db' : Db) : Type 0 where
    pub sound : IsSound v phase db'
    pub ledger : IsLedger crates redb state db'
    pub grows : Grows crates redb state db db'

  module _ (c : IsConsistent crates redb state) (ttl : 0 < state.issuer.ttl_secs) (v : Call)
      (now : now_unix v.time < u64_max) (db : Db) (l : IsLedger crates redb state db) where
    checked-IsSound :
        (client : Address) (verdict : Result Bool)
        → parse_address v.request.client ≡ ok client
        → v.verifier.verify v.request.turnstile_token none ≡ verdict
        → IsSound v (checked crates redb state client verdict) db
    checked-IsSound client (ok true) p said = record { is_client = p; passed = said }
    checked-IsSound client (ok false) p said =
        λ token e. absurd (forbidden-ne-token "captcha_failed" token e)
    checked-IsSound client (err x) p said = λ token e. absurd (internal-ne-token token e)

    received-Advanced :
        Advanced v db
          (advance crates redb state v received db).0
          (advance crates redb state v received db).1
    unfolding advance parse_client
    received-Advanced = elim (Result-cases (parse_address v.request.client)) [
      | inl (client, p) ↦
          rw (p, advance)
            (record { sound = checked-IsSound client _ p refl; ledger = l; grows = λ j had. had })
      | inr (e, p) ↦
          rw (p, advance)
            (record {
              sound = λ token said. absurd (bad_request-ne-token "bad_request" token said);
              ledger = l;
              grows = λ j had. had;
            })
    ]

    looked_up-IsSound :
        (client : Address) (found : Result (Option GrantRecord)) {db' : Db}
        → IsAllowed v client
        → ((rec : GrantRecord)
            → found ≡ ok (some rec)
            → decode_row (rows db client) ≡ ok (some rec))
        → rows db' ≡ rows db
        → IsSound v (looked_up crates redb state client (now_unix v.time) found) db'
    looked_up-IsSound client (ok (some rec)) a reads same =
        elim (Bool-cases (ltb (now_unix v.time) rec.expiry)) [
          | inl live ↦ rw live (λ token e. record {
            client = client;
            allowed = a;
            rec = rec;
            issued = row-IsIssued crates redb state l client rec (reads rec refl);
            token_is = token_json-injective _ _ e;
            live = ltb→lt _ _ live;
            held = Grows-of_rows crates redb state same client (rec, reads rec refl);
          })
          | inr lapsed ↦ rw lapsed a
        ]
    looked_up-IsSound client (ok none) a reads same = a
    looked_up-IsSound client (err x) a reads same = λ token e. absurd (internal-ne-token token e)

    verified-Advanced :
        (client : Address)
        → IsAllowed v client
        → Advanced v db
            (advance crates redb state v (verified client) db).0
            (advance crates redb state v (verified client) db).1
    unfolding advance
    verified-Advanced client a =
        let same = get_grant-rows crates redb client db in
        record {
          sound =
              looked_up-IsSound client (get_grant crates redb client db).0 a
                (λ rec found. (Ends-ok _ _ _ _ (get_grant_reads crates redb client db) found).0)
                same;
          ledger = IsLedger-of_rows crates redb state same l;
          grows = Grows-of_rows crates redb state same;
        }

    Saved-IsSound :
        (client : Address) {resp : Response} {db' : Db}
        → IsAllowed v client
        → Saved crates redb state client (now_unix v.time) db resp db'
        → IsSound v (answered resp) db'
    Saved-IsSound client a (unsaved said same) token e =
        absurd (internal-ne-token token (sym said ∙ e))
    Saved-IsSound client a (saved fresh expiry issued said wrote) token e =
        let i =
          IsIssued-record_of crates redb state c client (now_unix v.time) fresh expiry (omega arith)
            issued in
        record {
          client = client;
          allowed = a;
          rec = record_of crates redb state fresh expiry (now_unix v.time);
          issued = i;
          token_is = token_json-injective _ _ (sym said ∙ e);
          live =
              rw i.delegates.lasts (expiry_later (now_unix v.time) state.issuer.ttl_secs now ttl);
          held = HasRow-saved crates redb state db client _ i wrote;
        }

    missed-Advanced :
        (client : Address)
        → IsAllowed v client
        → Advanced v db
            (advance crates redb state v (missed client) db).0
            (advance crates redb state v (missed client) db).1
    unfolding advance
    missed-Advanced client a =
        let w = save-Saved crates redb state client (now_unix v.time) db _ refl in
        record {
          sound = Saved-IsSound client a w;
          ledger = Saved-IsLedger crates redb state c now l w;
          grows = Saved-Grows crates redb state c now w;
        }

    pub advance-Advanced :
        (phase : Phase Address)
        → IsSound v phase db
        → Advanced v db
            (advance crates redb state v phase db).0
            (advance crates redb state v phase db).1
    unfolding advance
    advance-Advanced received s = received-Advanced
    advance-Advanced (verified client) s = verified-Advanced client s
    advance-Advanced (missed client) s = missed-Advanced client s
    advance-Advanced (answered resp) s = record { sound = s; ledger = l; grows = λ j had. had }
